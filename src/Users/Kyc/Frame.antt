-- ===== src/Users/Kyc/Frame.antt =====
-- The frame of an encrypted document: vector, tag and cipher text.
use madinaty_ai_core_mesh.Base.{
  ℕ, ◌≡◌, refl, ap, ◌∙◌, subst, List, [], ◌∷◌, ◌++◌, some, take, drop, length,
}
use madinaty_ai_core_mesh.Base.Text.{text_equality}
use madinaty_ai_core_mesh.Core.{user_keyed, kyc_keyed}
use madinaty_ai_core_mesh.Users.Kyc.{Bytes, Cipher, encrypt_buffer, decrypt_buffer}

module _ {A : Type 0} where
  take-append_length : (xs ys : List A) → take (length xs) (xs ++ ys) ≡ xs
  take-append_length [] ys = refl
  take-append_length (x ∷ xs) ys = ap (λ t. x ∷ t) (take-append_length xs ys)

  drop-append_length : (xs ys : List A) → drop (length xs) (xs ++ ys) ≡ ys
  drop-append_length [] ys = refl
  drop-append_length (x ∷ xs) ys = drop-append_length xs ys

  take-append : (n : ℕ) (xs ys : List A) → length xs ≡ n → take n (xs ++ ys) ≡ xs
  take-append n xs ys h = subst (λ m. take m (xs ++ ys) ≡ xs) h (take-append_length xs ys)

  drop-append : (n : ℕ) (xs ys : List A) → length xs ≡ n → drop n (xs ++ ys) ≡ ys
  drop-append n xs ys h = subst (λ m. drop m (xs ++ ys) ≡ ys) h (drop-append_length xs ys)

-- What is sealed with a vector of twelve bytes, and a tag of sixteen, is read back.
abbrev pub OpensOwn : Cipher → Type 0
OpensOwn cipher =
    (key iv plaintext : Bytes)
    → (length (cipher.seal key iv plaintext).1 ≡ 16)
      × (cipher.unseal key iv (cipher.seal key iv plaintext).1 (cipher.seal key iv plaintext).0
          ≡ some plaintext)

-- What `encryptBuffer` frames, `decryptBuffer` takes apart.
unframe :
    (cipher : Cipher) (n m : ℕ) (iv tag body key : Bytes)
    → length iv ≡ n
    → length tag ≡ m
    → let blob = iv ++ (tag ++ body) in
      cipher.unseal key (take n blob) (take m (drop n blob)) (drop m (drop n blob))
      ≡ cipher.unseal key iv tag body
unframe cipher n m iv tag body key h k =
    rw
      (
        take-append n iv (tag ++ body) h,
        drop-append n iv (tag ++ body) h,
        take-append m tag body k,
        drop-append m tag body k,
      )
      refl

decrypt_frame :
    (cipher : Cipher) (iv tag body key : Bytes)
    → length iv ≡ 12
    → length tag ≡ 16
    → decrypt_buffer cipher (iv ++ (tag ++ body)) key ≡ cipher.unseal key iv tag body
unfolding decrypt_buffer
decrypt_frame cipher iv tag body key h k = unframe cipher 12 16 iv tag body key h k

pub decrypt-encrypt :
    (cipher : Cipher) (iv document key : Bytes)
    → OpensOwn cipher
    → length iv ≡ 12
    → decrypt_buffer cipher (encrypt_buffer cipher iv document key) key ≡ some document
unfolding encrypt_buffer
decrypt-encrypt cipher iv document key own h =
    decrypt_frame cipher iv (cipher.seal key iv document).1 (cipher.seal key iv document).0 key h
      (own key iv document).0
    ∙ (own key iv document).1
