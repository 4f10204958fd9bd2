-- ===== src/Client/Init.antt =====
-- app/client/client.go, `InitClient` and `NewClient`: a client from its settings to its handlers.
use zhangyu.Base.{◌≡◌, refl, Bool, Option-cases, inl, inr, ap}
use zhangyu.Base.Dict
use zhangyu.Base.Text.{CaseTable}
use zhangyu.Utils.Settings.{Disk, IndentedText}
use zhangyu.Rpc.InvokePath.{client_kick, transfer_target_out, transfer_listen_add}
use zhangyu.Rpc.Route.{new_invoke_route, add_uni_handler, path_key}
use zhangyu.Quic.Client.{Dialer, Dialed, connect_to, dial, open_dialed}
use zhangyu.Node.Peers.{Peer}
use zhangyu.Quic.Client.Handlers as Quic
use zhangyu.Quic.Client.Handlers.{new_dialer, set_heart_beat_seconds}
use zhangyu.Client.{Client}
use zhangyu.Client.Handlers.{
  ClientHandler, new_record, kick, dial_out, listen_add, init_client_handlers,
}
use zhangyu.Client.Setup.{new_client}

module _ (u : CaseTable) {Bidi : Type 0} where
  -- The handlers that `InitClient` adds once it has connected.
  unfoldable pub add_client_handlers : Dialer ClientHandler Bidi → Dialer ClientHandler Bidi
  add_client_handlers c =
      let r1 = add_uni_handler u c.route client_kick kick in
      let r2 = add_uni_handler u r1 transfer_target_out dial_out in
      record c { route = add_uni_handler u r2 transfer_listen_add listen_add }

  -- `InitClient`, with what its dial meets.
  unfoldable pub init_client : Client → Dialed → Dialer ClientHandler Bidi
  unfolding add_client_handlers
  init_client c d =
      let made : Dialer ClientHandler Bidi =
        new_dialer u c.terminal_id c.connection_id new_record in
      add_client_handlers (connect_to u (set_heart_beat_seconds made c.heart_beat_seconds) d).0

  -- `NewClient`.
  unfoldable start_client :
      IndentedText → Bool → Disk → Dialed → (Client × Disk) × Dialer ClientHandler Bidi
  unfolding init_client
  start_client text windows disk d =
      (new_client text windows disk, init_client (new_client text windows disk).0 d)

  dial-uni_handlers :
      (c : Dialer ClientHandler Bidi) (d : Dialed)
      → (connect_to u c d).0.route.uni_handlers ≡ c.route.uni_handlers
  unfolding connect_to dial open_dialed
  dial-uni_handlers c d = elim (Option-cases d.dial_error) [
    | inr (message, failed) ↦ rw failed refl
    | inl dialed ↦ elim (Option-cases d.stream_error) [
      | inr (message, failed) ↦ rw (dialed, failed) refl
      | inl opened ↦ rw (dialed, opened) refl
    ]
  ]

-- After `InitClient`, whether or not its connection succeeds, the one-way handlers of a client are
-- those of a new route to which the four handlers were added at once.
init_client-uni_handlers :
    (u : CaseTable) (Bidi : Type 0) (c : Client) (d : Dialed)
    → (init_client u {Bidi = Bidi} c d).route.uni_handlers
      ≡ (init_client_handlers {Bidi = Bidi} {Invoker = Peer} u new_invoke_route).uni_handlers
unfolding init_client init_client_handlers add_client_handlers new_dialer set_heart_beat_seconds
    add_uni_handler Quic.add_uni_handler
init_client-uni_handlers u Bidi c d =
    ap
      (λ hs. Dict.insert (path_key u transfer_listen_add) listen_add (
        Dict.insert (path_key u transfer_target_out) dial_out
          (Dict.insert (path_key u client_kick) kick hs)))
      (dial-uni_handlers u {Bidi = Bidi}
        (set_heart_beat_seconds (new_dialer u c.terminal_id c.connection_id new_record)
          c.heart_beat_seconds)
        d)
