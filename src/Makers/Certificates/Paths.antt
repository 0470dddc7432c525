-- ===== src/Makers/Certificates/Paths.antt =====
-- The paths that create_ca_key/Rust_CA_Maker_ECDSA_P-384_Multi_Client/src/main.rs spells, and which of them differ.
use Prim.Native.Char.{Char, code}
use Prim.Native.String
use text.Mathlib.TextLemmas
use cipher_mq.Common.{
  ◌≡◌, ◌≢◌, ◌∙◌, refl, sym, ap, String, false, ◌==◌, List, [], ◌∷◌, eq-false_of_ne, eq_iff, format,
  arith, All,
}

-- Texts behind the same text.
pub differs_behind :
    (d s t : String) → (s == t) ≡ false → (String.◌++◌ d s == String.◌++◌ d t) ≡ false
differs_behind d s t h =
    eq-false_of_ne (String.◌++◌ d s) (String.◌++◌ d t)
      (λ e. ground (arith, eq_iff s t, TextLemmas.append_cancel_left d s t e, h))

-- Texts that start differently.
pub differs_at :
    (c d : Char) (s t : String) → code c ≢ code d → (String.◌∷◌ c s == String.◌∷◌ d t) ≡ false
differs_at c d s t h =
    eq-false_of_ne (String.◌∷◌ c s) (String.◌∷◌ d t)
      (λ e. h (ap code (TextLemmas.head-eq_of_cons-eq e)))

abbrev pub client_dir : String → String
client_dir cn = format ("certs/clients/" ∷ cn ∷ [])

abbrev pub dest_dir : String → String
dest_dir cn = format ("src/client/certs/" ∷ cn ∷ [])

pub dirs_differ :
    (cn cn' s t : String) → (String.◌++◌ (client_dir cn) s == String.◌++◌ (dest_dir cn') t) ≡ false
dirs_differ cn cn' s t =
    rw
      (
        TextLemmas.append_assoc "certs/clients/" (format (cn ∷ [])) s,
        TextLemmas.append_assoc "src/client/certs/" (format (cn' ∷ [])) t,
        TextLemmas.cons-append "c" "erts/clients/" (String.◌++◌ (format (cn ∷ [])) s),
        TextLemmas.cons-append "s" "rc/client/certs/" (String.◌++◌ (format (cn' ∷ [])) t),
      )
      (differs_at "c" "s" _ _ (λ e. omega (arith, e)))

pub ca_differs_client : (cn t : String) → (String.◌++◌ (client_dir cn) t == "certs/ca.crt") ≡ false
ca_differs_client cn t =
    rw
      (
        TextLemmas.append_assoc "certs/clients/" (format (cn ∷ [])) t,
        TextLemmas.append_assoc "certs/c" "lients/" (String.◌++◌ (format (cn ∷ [])) t),
        TextLemmas.cons-append "l" "ients/" (String.◌++◌ (format (cn ∷ [])) t),
      )
      (differs_behind "certs/c"
        (String.◌∷◌ "l" (String.◌++◌ "ients/" (String.◌++◌ (format (cn ∷ [])) t))) "a.crt"
        (differs_at "l" "a" _ ".crt" (λ e. omega (arith, e))))

-- Texts that end differently, in as many characters.
ends_differ :
    (s s' a a' u u' : String)
    → String.count u ≡ String.count u'
    → (u == u') ≡ false
    → (String.◌++◌ s (String.◌++◌ a u) == String.◌++◌ s' (String.◌++◌ a' u')) ≡ false
ends_differ s s' a a' u u' same differ =
    rw (sym (TextLemmas.append_assoc s a u), sym (TextLemmas.append_assoc s' a' u'))
      (eq-false_of_ne _ _ (λ e.
        let long = ap String.count e in
        let counts =
          sym (TextLemmas.length-append (String.◌++◌ s a) u)
          ∙ long
          ∙ TextLemmas.length-append (String.◌++◌ s' a') u' in
        ground
          (arith, eq_iff u u', (TextLemmas.append_inj e (omega (arith, counts, same))).1, differ)))

ca_differs_dest : (cn t : String) → (String.◌++◌ (dest_dir cn) t == "certs/ca.crt") ≡ false
ca_differs_dest cn t =
    rw
      (
        TextLemmas.append_assoc "src/client/certs/" (format (cn ∷ [])) t,
        TextLemmas.cons-append "s" "rc/client/certs/" (String.◌++◌ (format (cn ∷ [])) t),
      )
      (differs_at "s" "c" _ "erts/ca.crt" (λ e. omega (arith, e)))

-- The directories of two clients.
same_end :
    (cn cn' t : String)
    → (cn == cn') ≡ false
    → (String.◌++◌ (dest_dir cn) t == String.◌++◌ (dest_dir cn') t) ≡ false
same_end cn cn' t h =
    eq-false_of_ne _ _ (λ (e : String.◌++◌ (dest_dir cn) t ≡ String.◌++◌ (dest_dir cn') t). ground (
      arith,
      eq_iff cn cn',
      TextLemmas.append_cancel_right cn cn' "" (
          TextLemmas.append_cancel_left "src/client/certs/" _ _
            (TextLemmas.append_cancel_right (dest_dir cn) (dest_dir cn') t e)),
      h,
    ))

-- The files that are made for a client.
abbrev pub paths : String → List String
paths cn =
    format (client_dir cn ∷ "/client.key" ∷ [])
    ∷ format (client_dir cn ∷ "/client.crt" ∷ [])
    ∷ format (dest_dir cn ∷ "/ca.crt" ∷ [])
    ∷ format (dest_dir cn ∷ "/client.crt" ∷ [])
    ∷ format (dest_dir cn ∷ "/client.key" ∷ [])
    ∷ []

-- A path that is none of these.
abbrev pub IsApart : String → List String → Type 0
IsApart p = All (λ q. (q == p) ≡ false)

pub ca-IsApart : (cn : String) → IsApart "certs/ca.crt" (paths cn)
ca-IsApart cn = (
  ca_differs_client cn "/client.key",
  (
    ca_differs_client cn "/client.crt",
    (
      ca_differs_dest cn "/ca.crt",
      (ca_differs_dest cn "/client.crt", (ca_differs_dest cn "/client.key", tt)),
    ),
  ),
)

module _ (cn cn' : String) (h : (cn == cn') ≡ false) where
  pub key-IsApart : IsApart (format (dest_dir cn' ∷ "/client.key" ∷ [])) (paths cn)
  key-IsApart = (
    dirs_differ cn cn' "/client.key" "/client.key",
    (
      dirs_differ cn cn' "/client.crt" "/client.key",
      (
        ends_differ (dest_dir cn) (dest_dir cn') "/ca" "/client" ".crt" ".key" refl refl,
        (
          ends_differ (dest_dir cn) (dest_dir cn') "/client" "/client" ".crt" ".key" refl refl,
          (same_end cn cn' "/client.key" h, tt),
        ),
      ),
    ),
  )

  pub crt-IsApart : IsApart (format (dest_dir cn' ∷ "/client.crt" ∷ [])) (paths cn)
  crt-IsApart = (
    dirs_differ cn cn' "/client.key" "/client.crt",
    (
      dirs_differ cn cn' "/client.crt" "/client.crt",
      (
        ends_differ (dest_dir cn) (dest_dir cn') "" "/cli" "/ca.crt" "ent.crt" refl refl,
        (
          same_end cn cn' "/client.crt" h,
          (
            ends_differ (dest_dir cn) (dest_dir cn') "/client" "/client" ".key" ".crt" refl refl,
            tt,
          ),
        ),
      ),
    ),
  )

  pub ca_copy-IsApart : IsApart (format (dest_dir cn' ∷ "/ca.crt" ∷ [])) (paths cn)
  ca_copy-IsApart = (
    dirs_differ cn cn' "/client.key" "/ca.crt",
    (
      dirs_differ cn cn' "/client.crt" "/ca.crt",
      (
        same_end cn cn' "/ca.crt" h,
        (
          ends_differ (dest_dir cn) (dest_dir cn') "/cli" "" "ent.crt" "/ca.crt" refl refl,
          (ends_differ (dest_dir cn) (dest_dir cn') "/client" "/ca" ".key" ".crt" refl refl, tt),
        ),
      ),
    ),
  )
