-- ===== src/Makers/Certificates/Kept.antt =====
-- The files that the loop of create_ca_key/Rust_CA_Maker_ECDSA_P-384_Multi_Client/src/main.rs leaves as they are.
use cipher_mq.Common.{
  ℕ, ◌≡◌, ◌∙◌, ◌+◌, refl, inl, inr, String, false, Option, ◌==◌, List, [], ◌∷◌, get, get-insert,
  format, Result, ok, err, arith, Option-cases, All,
}
use cipher_mq.Makers.{Files, Action, write, copy, create_dir_all, and_then}
use cipher_mq.Makers.Certificates.{
  Rcgen, client_params, using, ◌then_do◌, make_client, make_clients,
}
use cipher_mq.Makers.Certificates.Paths.{client_dir, dest_dir, paths, IsApart}

-- The file at `p` is after the action what it was before, whether the action succeeds or not.
pub record Keeps (p : String) (act : Action) : Type 0 where
  pub same : (files : Files) → get p (act files).1 ≡ get p files

module _ (p : String) where
  and_then-Keeps :
      (r : Result String (Unit {0}) × Files) (next : Action)
      → Keeps p next
      → get p (and_then r next).1 ≡ get p r.1
  unfolding and_then
  and_then-Keeps (ok _, files) next k = k.same files
  and_then-Keeps (err e, files) next k = refl

  then_do-Keeps :
      (first next : Action) → Keeps p first → Keeps p next → Keeps p (first then_do next)
  then_do-Keeps first next h k = record {
    same = λ files. and_then-Keeps (first files) next k ∙ h.same files;
  }

  using-Keeps :
      {A : Type 0} (r : Result String A) (next : A → Action)
      → ((a : A) → Keeps p (next a))
      → Keeps p (using r next)
  unfolding using
  using-Keeps (ok a) next h = record { same = (h a).same }
  using-Keeps (err e) next h = record { same = λ files. refl }

  module _ (refuse : String → Option String) where
    write-Keeps : (path text : String) → (path == p) ≡ false → Keeps p (write refuse path text)
    unfolding write
    write-Keeps path text h = record {
      same = λ files. elim (Option-cases (refuse path)) [
        | inl allowed ↦ rw (allowed, write) (ground (arith, h, get-insert p path text files))
        | inr (e, refused) ↦ rw (refused, write) refl
      ];
    }

    copy-Keeps : (source path : String) → (path == p) ≡ false → Keeps p (copy refuse source path)
    unfolding copy
    copy-Keeps source path h = record {
      same = λ files. elim (Option-cases (get source files)) [
        | inl missing ↦ rw (missing, copy) refl
        | inr (text, found) ↦ rw (found, copy) ((write-Keeps path text h).same files)
      ];
    }

    create_dir_all-Keeps : (path : String) → Keeps p (create_dir_all refuse path)
    unfolding create_dir_all
    create_dir_all-Keeps path = record {
      same = λ files. elim (Option-cases (refuse path)) [
        | inl allowed ↦ rw (allowed, create_dir_all) refl
        | inr (e, refused) ↦ rw (refused, create_dir_all) refl
      ];
    }

    module _ {Key Cert : Type 0} (rcgen : Rcgen Key Cert) where
      pub make_client-Keeps :
          (ca_cert : Cert) (ca_key : Key) (draw : ℕ) (client_cn : String)
          → IsApart p (paths client_cn)
          → Keeps p (make_client rcgen refuse ca_cert ca_key draw client_cn)
      unfolding make_client
      make_client-Keeps ca_cert ca_key draw client_cn
            (key, (crt, (ca_copy, (crt_copy, (key_copy, _))))) =
          let crt_path = format (client_dir client_cn ∷ "/client.crt" ∷ []) in
          let key_path = format (client_dir client_cn ∷ "/client.key" ∷ []) in
          let copies =
            then_do-Keeps _ _ (copy-Keeps "certs/ca.crt" _ ca_copy) (
              then_do-Keeps _ _ (copy-Keeps crt_path _ crt_copy)
                (copy-Keeps key_path _ key_copy)) in
          then_do-Keeps _ _ (create_dir_all-Keeps (client_dir client_cn)) (
            using-Keeps (rcgen.generate draw) _ (λ client_key.
              using-Keeps (rcgen.signed_by (client_params client_cn) client_key ca_cert ca_key) _
                (λ client_cert.
                  then_do-Keeps _ _
                    (then_do-Keeps _ _ (write-Keeps _ (rcgen.serialize_pem client_key) key)
                      (write-Keeps _ (rcgen.pem client_cert) crt))
                    (then_do-Keeps _ _ (create_dir_all-Keeps (dest_dir client_cn)) copies))))

      -- The loop leaves a file that none of the clients has.
      pub make_clients-Keeps :
          (ca_cert : Cert) (ca_key : Key) (draw : ℕ) (client_cns : List String)
          → All (λ cn. IsApart p (paths cn)) client_cns
          → Keeps p (make_clients rcgen refuse ca_cert ca_key draw client_cns)
      unfolding make_clients
      make_clients-Keeps ca_cert ca_key draw [] h = record { same = λ files. refl }
      make_clients-Keeps ca_cert ca_key draw (client_cn ∷ client_cns) (here, there) =
          then_do-Keeps _ _ (make_client-Keeps ca_cert ca_key draw client_cn here)
            (make_clients-Keeps ca_cert ca_key (draw + 1) client_cns there)
