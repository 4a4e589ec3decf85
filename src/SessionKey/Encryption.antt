-- ===== src/SessionKey/Encryption.antt =====
-- Encrypt and Decrypt: the index in front of a message is read back, and what other users of the manager
-- may do in between.
use Prim.Native.Nat.{bit_or}
use dsoftbus_go.Base.{
  ℕ, ◌+◌, ◌*◌, ◌/◌, ◌%◌, ◌^◌, ◌≡◌, ◌≢◌, ap, sym, ◌∙◌, subst, arith, List, last?, length, some, inl,
  inr, ◌⊎◌,
}
use dsoftbus_go.Base.Int.{ℤ, uint32, int32, IsInt32, int_eq, int_beq_iff, int32-uint32, uint32-lt}
use dsoftbus_go.Base.Bits.{bit_or_join}
use dsoftbus_go.SessionKey.{
  SessionKey, SessionKeyManager, key_list, set_session_key, find_key, get_session_key,
  get_latest_session_key, remove_session_key, index_of_bytes,
}
use dsoftbus_go.SessionKey.KeyLists.{HasRoom, key_bytes}
use dsoftbus_go.SessionKey.Rotation.{IsManager, key_at, set_session_key-key_at}
use dsoftbus_go.SessionKey.Lookups.{
  get_session_key-key_at, get_latest-key_at, remove_session_key-key_at,
}

-- The four bytes in front of a message are read back as the index.
pub index_of-index_bytes :
    (i : ℤ)
    → IsInt32 i
    → let w = uint32 i in
      index_of_bytes (w / 2 ^ 24 % 256) (w / 2 ^ 16 % 256) (w / 2 ^ 8 % 256) (w % 256) ≡ i
index_of-index_bytes i h =
    ap int32 (rw (joined_24, joined_16, joined_8) (omega (arith, uint32-lt i))) ∙ int32-uint32 i h
  where
    w : ℕ
    w = uint32 i

    joined_24 :
        bit_or (w / 2 ^ 24 % 256 * 2 ^ 24) (w / 2 ^ 16 % 256 * 2 ^ 16)
        ≡ (w / 2 ^ 24 % 256 * 256 + w / 2 ^ 16 % 256) * 2 ^ 16
    joined_24 =
        bit_or_join 24 (w / 2 ^ 24 % 256) (w / 2 ^ 16 % 256 * 2 ^ 16) (omega arith) ∙ omega arith

    joined_16 :
        bit_or ((w / 2 ^ 24 % 256 * 256 + w / 2 ^ 16 % 256) * 2 ^ 16) (w / 2 ^ 8 % 256 * 2 ^ 8)
        ≡ ((w / 2 ^ 24 % 256 * 256 + w / 2 ^ 16 % 256) * 256 + w / 2 ^ 8 % 256) * 2 ^ 8
    joined_16 =
        bit_or_join 16 (w / 2 ^ 24 % 256 * 256 + w / 2 ^ 16 % 256) (w / 2 ^ 8 % 256 * 2 ^ 8)
          (omega arith)
        ∙ omega arith

    joined_8 :
        bit_or
          (((w / 2 ^ 24 % 256 * 256 + w / 2 ^ 16 % 256) * 256 + w / 2 ^ 8 % 256) * 2 ^ 8)
          (w % 256)
        ≡ ((w / 2 ^ 24 % 256 * 256 + w / 2 ^ 16 % 256) * 256 + w / 2 ^ 8 % 256) * 2 ^ 8 + w % 256
    joined_8 =
        bit_or_join 8 ((w / 2 ^ 24 % 256 * 256 + w / 2 ^ 16 % 256) * 256 + w / 2 ^ 8 % 256)
          (w % 256) (omega arith)

-- What other users of the manager may do while the key of the id under the index stays: they set
-- and look up any keys, and remove keys other than this one.
pub data KeyStep (id i : ℤ) : SessionKeyManager → SessionKeyManager → Type 0 where
  set :
      (m : SessionKeyManager) (j : ℤ) (key : List ℕ) (t u : ℕ)
      → length key ≡ 16
      → HasRoom (last? (key_list j m))
      → KeyStep id i m (set_session_key m j key t u).0
  get : (m : SessionKeyManager) (j x : ℤ) (now : ℕ) → KeyStep id i m (get_session_key m j x now).0
  latest :
      (m : SessionKeyManager) (j : ℤ) (now : ℕ) → KeyStep id i m (get_latest_session_key m j now).0
  remove :
      (m : SessionKeyManager) (j x : ℤ)
      → (j ≢ id) ⊎ (i ≢ x)
      → KeyStep id i m (remove_session_key m j x).0

pub data KeySteps (id i : ℤ) (m : SessionKeyManager) : SessionKeyManager → Type 0 where
  done : KeySteps id i m m
  then_step : {n k : SessionKeyManager} → KeySteps id i m n → KeyStep id i n k → KeySteps id i m k

id-cases : (j id : ℤ) → (j ≡ id) ⊎ (j ≢ id)
id-cases j id = ground (arith, int_beq_iff j id)

at_other :
    (id i : ℤ) (key : List ℕ) (m m' : SessionKeyManager)
    → key_list id m' ≡ key_list id m
    → key_at m id i ≡ some key
    → key_at m' id i ≡ some key
at_other id i key m m' h e = ap (λ (l : List SessionKey). key_bytes (find_key i l)) h ∙ e

KeyStep-keeps :
    (id i : ℤ) (key : List ℕ) {m m' : SessionKeyManager}
    → KeyStep id i m m'
    → IsManager m × (key_at m id i ≡ some key)
    → IsManager m' × (key_at m' id i ≡ some key)
KeyStep-keeps id i key (set m j key' t u h room) (v, e) =
    let (_, _, old, other, v') = set_session_key-key_at m j key' t u v room h in
    let m' = (set_session_key m j key' t u).0 in
    (
      v',
      elim (id-cases j id) [
        | inl same ↦
            subst (λ (x : ℤ). key_at m' x i ≡ some key) same
              (old i key (subst (λ (x : ℤ). key_at m x i ≡ some key) (sym same) e))
        | inr ne ↦ at_other id i key m m' (other id ne) e
      ],
    )
KeyStep-keeps id i key (get m j x now) (v, e) =
    let (_, same, v') = get_session_key-key_at m j x now v in (v', same id i ∙ e)
KeyStep-keeps id i key (latest m j now) (v, e) =
    let (_, same, v') = get_latest-key_at m j now v in (v', same id i ∙ e)
KeyStep-keeps id i key (remove m j x ne) (v, e) =
    let (_, others, other, v') = remove_session_key-key_at m j x v in
    let m' = (remove_session_key m j x).0 in
    (
      v',
      elim (id-cases j id) [
        | inr ne' ↦ at_other id i key m m' (other id ne') e
        | inl same ↦ elim ne [
          | inl ne' ↦ absurd (ne' same)
          | inr ne' ↦
              subst (λ (y : ℤ). key_at m' y i ≡ some key) same
                (others i ne' ∙ subst (λ (y : ℤ). key_at m y i ≡ some key) (sym same) e)
        ]
      ],
    )

pub KeySteps-keep :
    (id i : ℤ) (key : List ℕ) {m m' : SessionKeyManager}
    → KeySteps id i m m'
    → IsManager m × (key_at m id i ≡ some key)
    → IsManager m' × (key_at m' id i ≡ some key)
KeySteps-keep id i key done h = h
KeySteps-keep id i key (then_step s t) h = KeyStep-keeps id i key t (KeySteps-keep id i key s h)
