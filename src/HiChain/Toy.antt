-- ===== src/HiChain/Toy.antt =====
-- Primitives that keep the laws of real ones and are no secret, for runs.
use dsoftbus_go.Base.{
  ℕ, nat_eq, ◌≡◌, refl, ap, sym, subst, ◌∙◌, ◌+◌, ◌%◌, ◌^◌, ◌==◌, if◌then◌else◌, ◌++◌, take, drop,
  length, All, take-append_exact, drop-append_exact, Option, none, some, arith,
}
use dsoftbus_go.Base.Bytes.{IsByte, le_get, le_put, length-le_put, le_put-IsByte, le_get-le_put}
use dsoftbus_go.Base.Text.{Bytes, list_eq, same_items_iff}
use dsoftbus_go.HiChain.Started.{IsDh}
use dsoftbus_go.HiChain.Exchanged.{IsAead}
use dsoftbus_go.HiChain.{Primitives, AuthMessage, AuthInfo}

abbrev toy_point : ℕ → Bytes
toy_point v = le_put 32 (v % 256 ^ 32)

abbrev toy_tag : Bytes → Bytes
toy_tag key = le_put 16 (le_get key)

abbrev toy_open : Bytes → Bytes → Option Bytes
toy_open key c = if take 16 c == toy_tag key then some (drop 16 c) else none

-- Scalars are added to points, and the reader of messages is given.
abbrev pub toy : (Bytes → Option AuthMessage) → (Bytes → Option AuthInfo) → Primitives
toy read read_info = record {
  x25519 = λ a b. some (toy_point (le_get a + le_get b));
  hkdf = λ secret salt info n. some (le_put n (le_get secret + le_get salt));
  hmac = λ k m. le_put 32 (le_get k + le_get m);
  sha256 = λ m. le_put 32 (le_get m);
  seal = λ key nonce text aad. toy_tag key ++ text;
  open_sealed = λ key nonce c aad. toy_open key c;
  sign = λ key m. le_put 64 (le_get (drop 32 key) + le_get m);
  verify = λ key m s. s == le_put 64 (le_get key + le_get m);
  mod_inverse = λ d p. some 1;
  marshal = λ m. le_put 4 m.session_id;
  unmarshal = read;
  marshal_auth_info = λ id key. id ++ key;
  unmarshal_auth_info = read_info;
}

toy_opens : (key text : Bytes) → toy_open key (toy_tag key ++ text) ≡ some text
toy_opens key text =
    let size : length (toy_tag key) ≡ 16 = length-le_put 16 (le_get key) in
    rw
      (
        take-append_exact 16 (toy_tag key) text size,
        drop-append_exact 16 (toy_tag key) text size,
        (same_items_iff (toy_tag key) (toy_tag key)).1 refl,
      )
      refl

point_value : (v : ℕ) → le_get (toy_point v) ≡ v % 256 ^ 32
point_value v = le_get-le_put 32 (v % 256 ^ 32) (omega arith)

module _ (read : Bytes → Option AuthMessage) (read_info : Bytes → Option AuthInfo) where
  some-injective : {a b : Bytes} → some a ≡ some b → a ≡ b
  some-injective e = cc

  pub toy-IsDh : IsDh (toy read read_info)
  toy-IsDh = record {
    commutes = λ a b base pa pb ea eb.
        let a_is = some-injective ea in
        let b_is = some-injective eb in
        let pa_is : le_get pa ≡ (le_get a + le_get base) % 256 ^ 32 =
          ap le_get (sym a_is) ∙ point_value _ in
        let pb_is : le_get pb ≡ (le_get b + le_get base) % 256 ^ 32 =
          ap le_get (sym b_is) ∙ point_value _ in
        ap (λ (v : ℕ). some (le_put 32 v)) (omega arith);
    point_size =
        λ a b c e. subst (λ (x : Bytes). length x ≡ 32) (some-injective e) (length-le_put 32 _);
    point_bytes = λ a b c e. subst (All IsByte) (some-injective e) (le_put-IsByte 32 _);
    hmac_bytes = λ k m. le_put-IsByte 32 (le_get k + le_get m);
  }

  pub toy-IsAead : IsAead (toy read read_info)
  toy-IsAead = record { open-seal = λ key nonce text aad. toy_opens key text }
