-- ===== src/Etcd/Listens/Laws.antt =====
-- app/node/etcd/etcd.go: theorems about `AddListenWithTunnel` and `GetTransferList`.
use mathlib.Core.Logic.Or
use zhangyu.Base.{
  All-map, Bool-cases, inl, inr, eq_false, ℕ, String, ◌≡◌, sym, ap, ◌∙◌, ◌≢◌, true, Option, some,
  List, [], ◌∷◌, All, if◌then◌else◌,
}
use mathlib.Core.List.{Mem, mem-cons, mem-cons_self, mem-cons_of_mem, not-mem-nil}
use zhangyu.Base.Strings.{Lacks, has_prefix}
use zhangyu.Utils.Json.{JsonText, get_json_string, get_json_value, get_json_value-get_json_string}
use zhangyu.Etcd.Server.{Server, forever}
use zhangyu.Etcd.Keys.{
  listen_key_prefix, listen_key, domain_name_key, domain_name-ne-listen, listen_prefix,
}
use zhangyu.Etcd.Store.{put_value, get_domain_info}
use zhangyu.Etcd.Store.Laws.{get-put_ne, get-put_self, get_record-put}
use zhangyu.Etcd.Listens.{
  Url, is_http, listen_record, add_listen_with_tunnel, listens_of, get_transfer_list,
}
use zhangyu.Rpc.Records.{Listen}
use zhangyu.Rpc.Records.Listens.{listen_struct, no_listen}

module _ (srv : Server) (codec : JsonText) (parse : String → Option Url) where
  open srv use {State, get, put}

  module _ (s : State) (tunnel client addr target : String) (now : ℕ) (url : Url) where
    -- The store with the listen under its client, and for HTTP under its domain.
    abbrev pub with_listen : State
    with_listen =
        let listen = listen_record srv codec s tunnel client addr target now in
        let s' = put_value srv codec s (listen_key client addr) listen in
        if is_http url.scheme then put_value srv codec s' (domain_name_key addr) listen else s'

    -- A listen whose target address parses is stored under its client and address.
    pub add_listen-stored :
        parse target ≡ some url
        → target ≢ ""
        → (add_listen_with_tunnel srv codec parse s tunnel client addr target now
            ≡ some (listen_record srv codec s tunnel client addr target now, with_listen))
          × (get with_listen (listen_key client addr)
              ≡ some
                  (get_json_string codec (listen_record srv codec s tunnel client addr target now)))
    unfolding add_listen_with_tunnel put_value
    add_listen-stored p ne = elim (Bool-cases (is_http url.scheme)) [
      | inl http ↦ rw http (
        rw (eq_false target "" ne, p, http),
        get-put_ne srv codec _ (domain_name_key addr) _ forever (listen_key client addr)
              (domain_name-ne-listen addr client addr)
            ∙ get-put_self srv codec s (listen_key client addr) _ forever,
      )
      | inr other ↦ rw other (
        rw (eq_false target "" ne, p, other),
        get-put_self srv codec s (listen_key client addr) _ forever,
      )
    ]

    -- For HTTP the domain of the listening address leads to the listen.
    pub get_domain_info-with_listen :
        is_http url.scheme ≡ true
        → get_domain_info srv codec with_listen addr
          ≡ some (listen_record srv codec s tunnel client addr target now)
    unfolding get_domain_info put_value
    get_domain_info-with_listen http =
        rw http (get_record-put srv codec _ (domain_name_key addr) _ forever)

module _ (srv : Server) (codec : JsonText) where
  open srv use {State, get, put, range, range_sound, range_complete}

  listens_of-cons :
      (entry : String × String) (entries : List (String × String)) (l : Listen)
      → entry.1 ≡ get_json_string codec l
      → listens_of srv codec (entry ∷ entries) ≡ l ∷ listens_of srv codec entries
  unfolding listens_of
  listens_of-cons entry entries l e = rw (e, get_json_value-get_json_string codec l)

  listens_of-mem_skip :
      (entry : String × String) (entries : List (String × String)) (l : Listen)
      → Mem l (listens_of srv codec entries)
      → Mem l (listens_of srv codec (entry ∷ entries))
  unfolding listens_of
  listens_of-mem_skip entry entries l m =
      elim (Bool-cases (get_json_value codec no_listen entry.1).1) [
        | inl fine ↦ rw fine (mem-cons_of_mem _ m)
        | inr bad ↦ rw bad m
      ]

  listens_of-mem :
      (entries : List (String × String)) (key : String) (l : Listen)
      → Mem (key, get_json_string codec l) entries
      → Mem l (listens_of srv codec entries)
  listens_of-mem [] key l m = absurd (not-mem-nil m)
  listens_of-mem (entry ∷ entries) key l m =
      Or.elim squash₁ (mem-cons.0 m)
        (λ e.
          rw (listens_of-cons entry entries l (ap (λ (x : String × String). x.1) (sym e)))
            mem-cons_self)
        (λ later. listens_of-mem_skip entry entries l (listens_of-mem entries key l later))

  -- A listen that is stored under its client and address is on the list that `GetTransferList`
  -- gives the client.
  pub get_transfer_list-mem :
      (s : State) (client addr : String) (l : Listen)
      → get s (listen_key client addr) ≡ some (get_json_string codec l)
      → Mem l (get_transfer_list srv codec s client)
  unfolding get_transfer_list listen_key
  get_transfer_list-mem s client addr l e =
      listens_of-mem (range s (listen_key client "")) (listen_key client addr) l (
        range_complete s (listen_key client "") (listen_key client addr) _ e
          (listen_key_prefix client addr))

  -- If two clients' identifiers differ and contain no equals sign, no key of a listen of the one is
  -- among the keys that make up the list of the other, whatever the address.
  pub range-separates :
      (s : State) (client other addr : String)
      → Lacks 61 client
      → Lacks 61 other
      → client ≢ other
      → All (λ e. e.0 ≢ listen_key other addr) (range s (listen_key client ""))
  range-separates s client other addr h k ne =
      All-map
        (λ (e : String × String)
            (sound : (get s e.0 ≡ some e.1) × (has_prefix (listen_key client "") e.0 ≡ true)).
          λ same. ne (listen_prefix client other addr h k (rw same at sound.1)))
        (range s (listen_key client "")) (range_sound s (listen_key client ""))
