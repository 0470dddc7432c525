-- ===== src/Makers/Keys.antt =====
-- create_ca_key/Rust_Key_Maker_X25519/src/main.rs: the two keys of a receiver.
use cipher_mq.Common.{
  ◌≡◌, ◌⊎◌, refl, inl, inr, String, Option, none, some, get, ok, err, arith, get-insert,
  Option-cases,
}
use cipher_mq.Clients.Primitives.{Bytes, Primitives}
use cipher_mq.Makers.{Files, Action, write, and_then}

-- `main`, with the private key that was drawn.
unfoldable pub make_keys : Primitives → (String → Option String) → Bytes → Action
unfolding write and_then
make_keys p refuse private_key files =
    let public_key = p.public_of private_key in
    let private_b64 = p.encode private_key in
    let public_b64 = p.encode public_key in
    and_then (write refuse "receiver_private.key" private_b64 files)
      (write refuse "receiver_public.key" public_b64)

-- Where the program succeeds both files hold the keys, whatever they held before.
pub get-make_keys :
    (p : Primitives) (refuse : String → Option String) (private_key : Bytes) (files files' : Files)
    → make_keys p refuse private_key files ≡ (ok tt, files')
    → (get "receiver_private.key" files' ≡ some (p.encode private_key))
      × (get "receiver_public.key" files' ≡ some (p.encode (p.public_of private_key)))
unfolding make_keys write and_then
get-make_keys p refuse private_key files files' made =
    let private_b64 = p.encode private_key in
    let public_b64 = p.encode (p.public_of private_key) in
    let once = cipher_mq.Common.insert "receiver_private.key" private_b64 files in
    ground (
      arith,
      get-insert "receiver_private.key" "receiver_public.key" public_b64 once,
      get-insert "receiver_public.key" "receiver_public.key" public_b64 once,
      get-insert "receiver_private.key" "receiver_private.key" private_b64 files,
    )
