-- ===== src/Utils/Closer.antt =====
-- utils/closer.go: a context that can be cancelled, and the goroutine that each `SetCtx` starts to call
-- the close handler once the context is done. A context is an index into `done`.
pub mod Runs
use zhangyu.Base.{
  ℕ, ◌+◌, ◌≡◌, Bool, true, false, not, Option, none, some, List, [], ◌∷◌, ◌++◌, length, get_elem?,
  set, if◌then◌else◌,
}

-- Where such a goroutine stands: it has not read the context yet, it waits for one, or it holds the
-- lock and has called the handler.
pub data Watcher : Type 0 where
  starting : Watcher
  watching : ℕ → Watcher
  closing : Watcher

-- `Closer`, with the contexts made so far, the running goroutines, whether one of them holds the lock,
-- and how often `SetCtx` made a context and the handler was called.
pub record Closer : Type 0 where
  pub done : List Bool
  pub ctx : Option ℕ
  pub closed : Bool
  has_handler : Bool
  pub watchers : List Watcher
  pub locked : Bool
  pub sets : ℕ
  pub calls : ℕ

abbrev pub new_closer : Closer
new_closer = record {
  done = [];
  ctx = none;
  closed = false;
  has_handler = false;
  watchers = [];
  locked = false;
  sets = 0;
  calls = 0;
}

-- `SetOnClose`.
unfoldable pub set_on_close : Closer → Closer
set_on_close c = record c { has_handler = true }

-- `SetCtx`, with whether the parent is there, and if so whether it is done already.
unfoldable pub set_ctx : Closer → Option Bool → Closer
set_ctx c none = c
set_ctx c (some parent_done) = record c {
  done = c.done ++ parent_done ∷ [];
  ctx = some (length c.done);
  closed = false;
  watchers = starting ∷ c.watchers;
  sets = c.sets + 1;
}

-- `CtxCancel`: the cancel function is that of the last context.
unfoldable pub ctx_cancel : Closer → Closer
ctx_cancel c = elim c.ctx [ none ↦ c | some i ↦ record c { done = set c.done i true } ]

-- `Close`.
unfoldable pub close : Closer → Closer
unfolding ctx_cancel
close c = ctx_cancel c

-- `IsClosed`, where the lock is free.
unfoldable is_closed : Closer → Bool
is_closed c = c.closed

-- A goroutine past its `select`, with the lock: it calls the handler if the closer is still open.
unfoldable pub call_handler : Closer → List Watcher → Closer
call_handler c others = if c.closed then record c { watchers = others } else record c {
  watchers = closing ∷ others;
  locked = true;
  calls = if c.has_handler then c.calls + 1 else c.calls;
}

-- And after the handler.
unfoldable pub finish_close : Closer → List Watcher → Closer
finish_close c others = record c { watchers = others; locked = false; closed = true }

-- A step of the program or of one of the goroutines; a parent may end at any time.
pub data Step (c : Closer) : Closer → Type 0 where
  sets_handler : Step c (set_on_close c)
  sets_ctx : (parent : Option Bool) → Step c (set_ctx c parent)
  closes : Step c (close c)
  ends : (i : ℕ) → Step c (record c { done = set c.done i true })
  reads :
      (xs ys : List Watcher) (i : ℕ)
      → c.watchers ≡ xs ++ starting ∷ ys
      → c.ctx ≡ some i
      → Step c (record c { watchers = xs ++ watching i ∷ ys })
  wakes :
      (xs ys : List Watcher) (i : ℕ)
      → c.watchers ≡ xs ++ watching i ∷ ys
      → get_elem? c.done i ≡ some true
      → c.locked ≡ false
      → Step c (call_handler c (xs ++ ys))
  finishes :
      (xs ys : List Watcher)
      → c.watchers ≡ xs ++ closing ∷ ys
      → c.locked ≡ true
      → Step c (finish_close c (xs ++ ys))

pub data Steps (c : Closer) : Closer → Type 0 where
  here : Steps c c
  next : {d e : Closer} → Steps c d → Step d e → Steps c e
