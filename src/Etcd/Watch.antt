-- ===== src/Etcd/Watch.antt =====
-- app/node/etcd/etcd.go, `AddWatcher`: what a watcher is called with for the events of etcd.
use zhangyu.Base.{String, Option, none, some, List, [], ◌∷◌, ◌++◌}

pub data EventType : Type 0 where
  put delete : EventType

-- An event, with the value from before it if the key was there.
pub record Event : Type 0 where
  pub event_type : EventType
  pub key : String
  pub value : String
  pub prev_value : Option String

abbrev event_name : EventType → String
event_name put = "PUT"
event_name delete = "DELETE"

abbrev value_or_empty : Option String → String
value_or_empty none = ""
value_or_empty (some value) = value

module _ {ℓ} {A : Type ℓ} (watcher : String → String → String → String → List A) where
  -- The call for one event: type, key, previous and current value.
  unfoldable pub watch_event : Event → List A
  watch_event e = watcher (event_name e.event_type) e.key (value_or_empty e.prev_value) e.value

  -- The loop over the events, in order.
  unfoldable add_watcher : List Event → List A
  unfolding watch_event
  add_watcher [] = []
  add_watcher (e ∷ events) = watch_event e ++ add_watcher events
