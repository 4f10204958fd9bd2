-- ===== src/Quic/Setup/Laws.antt =====
-- rpc/quic/srv/server.go, `NewServer`: the certificate from one start to the next.
use zhangyu.Base.{
  ℕ, String, ◌≡◌, refl, ap, ◌∙◌, Bool, true, false, some, ◌||◌, not, Bool-cases, inl, inr,
}
use zhangyu.Base.Dict
use zhangyu.Base.Dict.{lookup-insert}
use zhangyu.Base.Text.{CaseTable}
use zhangyu.Utils.Settings.{Disk, stat_of, exists_by, file_exists}
use zhangyu.Quic.Setup.{KeyPair, generate_tls_config, ensure_tls, new_server}

abbrev missing : Disk → Bool
missing disk = not (file_exists disk "node.pem") || not (file_exists disk "node.key")

generate_unwritable :
    (disk : Disk) (pair : KeyPair) → disk.writable ≡ false → generate_tls_config disk pair ≡ disk
unfolding generate_tls_config
generate_unwritable disk pair w = rw w refl

found_pem :
    (disk : Disk) (pair : KeyPair)
    → disk.writable ≡ true
    → Dict.lookup "node.pem" (generate_tls_config disk pair).files ≡ some pair.cert_pem
unfolding generate_tls_config
found_pem disk pair w = rw w (
    lookup-insert "node.pem" "node.pem" pair.cert_pem
      (Dict.insert "node.key" pair.key_pem disk.files))

found_key :
    (disk : Disk) (pair : KeyPair)
    → disk.writable ≡ true
    → Dict.lookup "node.key" (generate_tls_config disk pair).files ≡ some pair.key_pem
unfolding generate_tls_config
found_key disk pair w = rw w (
    lookup-insert "node.pem" "node.key" pair.cert_pem
      (Dict.insert "node.key" pair.key_pem disk.files)
    ∙ lookup-insert "node.key" "node.key" pair.key_pem disk.files)

exists_found :
    (disk : Disk) (name content : String)
    → Dict.lookup name disk.files ≡ some content
    → file_exists disk name ≡ true
unfolding file_exists
exists_found disk name content e = ap (λ o. exists_by (stat_of o)) e

generated_complete :
    (disk : Disk) (pair : KeyPair)
    → disk.writable ≡ true
    → missing (generate_tls_config disk pair) ≡ false
generated_complete disk pair w =
    rw
      (
        exists_found (generate_tls_config disk pair) "node.pem" pair.cert_pem
            (found_pem disk pair w),
        exists_found (generate_tls_config disk pair) "node.key" pair.key_pem
            (found_key disk pair w),
      )
      refl

ensure_missing :
    (disk : Disk) (pair : KeyPair)
    → missing disk ≡ true
    → ensure_tls disk pair ≡ generate_tls_config disk pair
unfolding ensure_tls
ensure_missing disk pair m = rw m refl

ensure_complete :
    (disk : Disk) (pair : KeyPair) → missing disk ≡ false → ensure_tls disk pair ≡ disk
unfolding ensure_tls
ensure_complete disk pair m = rw m refl

ensure_generated :
    (disk : Disk) (pair pair' : KeyPair)
    → missing disk ≡ true
    → ensure_tls (generate_tls_config disk pair) pair' ≡ generate_tls_config disk pair
ensure_generated disk pair pair' m = elim (Bool-cases disk.writable) [
  | inl w ↦ ensure_complete (generate_tls_config disk pair) pair' (generated_complete disk pair w)
  | inr w ↦
      rw (generate_unwritable disk pair w)
        (ensure_missing disk pair' m ∙ generate_unwritable disk pair' w)
]

ensure_tls_again :
    (disk : Disk) (pair pair' : KeyPair)
    → ensure_tls (ensure_tls disk pair) pair' ≡ ensure_tls disk pair
ensure_tls_again disk pair pair' = elim (Bool-cases (missing disk)) [
  | inl m ↦ rw (ensure_missing disk pair m) (ensure_generated disk pair pair' m)
  | inr c ↦ rw (ensure_complete disk pair c) (ensure_complete disk pair' c)
]

-- A second start of a server on the disk that a first start left gives the same server and
-- goroutines and leaves the disk as it is, whatever key pair is drawn the second time, also if the
-- disk cannot be written.
pub new_server_again :
    {Uni Bidi : Type 0} (u : CaseTable) (disk : Disk) (pair pair' : KeyPair)
    (quic_port http_port https_port : ℕ) (path : String) (heartbeat : Uni)
    → new_server {Uni = Uni} {Bidi = Bidi} u
        (new_server {Uni = Uni} {Bidi = Bidi} u disk pair quic_port http_port https_port path
          heartbeat).0.1
        pair'
        quic_port
        http_port
        https_port
        path
        heartbeat
      ≡ new_server u disk pair quic_port http_port https_port path heartbeat
unfolding new_server
new_server_again u disk pair pair' quic_port http_port https_port path heartbeat =
    rw (ensure_tls_again disk pair pair') refl
