-- ===== src/Store/Bucket.antt =====
-- A bucket of the database: its entries are in the order of the keys' bytes.
use workitem.Common.{List, [], ◌∷◌, ◌++◌, ◌≡◌, refl, ap, true, false, if◌then◌else◌, All}
use workitem.Content.Bytes.{Bytes}
use workitem.Store.Words.{bytes_before}

abbrev pub Bucket {ℓ} : Type ℓ → Type ℓ
Bucket V = List (Bytes × V)

module _ {ℓ} {V : Type ℓ} where
  -- `bucket.Put`, which overwrites the value of a key.
  unfoldable pub put_key : Bucket V → Bytes → V → Bucket V
  put_key [] key value = (key, value) ∷ []
  put_key ((k, v) ∷ rest) key value =
      let rest' = put_key rest key value in
      if bytes_before key k
      then (key, value) ∷ (k, v) ∷ rest
      else if bytes_before k key
      then (k, v) ∷ rest'
      else (key, value) ∷ rest

  -- A key stands behind the entries.
  abbrev pub IsBehind : Bytes → Bytes × V → Type 0
  IsBehind key (k, v) = (bytes_before key k ≡ false) × (bytes_before k key ≡ true)

  pub put_key-append :
      (b : Bucket V) (key : Bytes) (value : V)
      → All (IsBehind key) b
      → put_key b key value ≡ b ++ (key, value) ∷ []
  unfolding put_key
  put_key-append [] key value h = refl
  put_key-append ((k, v) ∷ rest) key value (h, hs) =
      rw (h.0, h.1) (ap (λ es. (k, v) ∷ es) (put_key-append rest key value hs))
