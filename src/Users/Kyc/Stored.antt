-- ===== src/Users/Kyc/Stored.antt =====
-- The document that a user submitted is the one that a reviewer reads.
use madinaty_ai_core_mesh.Base.{
  ℕ, ◌≡◌, ◌≢◌, refl, sym, ◌∙◌, subst, arith, inl, inr, false, List, [], ◌∷◌, ◌++◌, none, some, ◌==◌,
  ==_iff, find_first, length, Option-cases, Bool-cases,
}
use madinaty_ai_core_mesh.Base.Text.{Text, text_equality}
use madinaty_ai_core_mesh.Base.Dict.{put, put_self}
use madinaty_ai_core_mesh.Base.Action.{ok}
use madinaty_ai_core_mesh.Base.Table.{
  Distinct, find, update, find-first, find-update_self, find-update_ne, find-append_none,
}
use madinaty_ai_core_mesh.Core.{KycRecord, KycStatus, user_keyed, kyc_keyed}
use madinaty_ai_core_mesh.Users.{Registry, is_of_user}
use madinaty_ai_core_mesh.Users.Kyc.Frame.{OpensOwn, decrypt-encrypt}
use madinaty_ai_core_mesh.Users.Kyc.{
  Bytes, KycService, Draw, Decision, encrypt_buffer, decrypt_buffer, resolve_safe, save, read,
  submit, upsert_kyc, review, review_kyc, get_decrypted_document, new_kyc, resubmit,
}

-- The record has its file.
record IsStored (service : KycService) (blob : Bytes) (id : ℕ) (s : Registry) : Type 0 where
  kyc : KycRecord
  target : Text
  found : find id s.kycs ≡ some kyc
  resolved : resolve_safe service.storage kyc.encrypted_id_path ≡ some target
  written : s.files target ≡ some blob

-- The record with an id after a review.
review-find :
    (now kyc_id id : ℕ) (decision : Decision) (s : Registry) (k : KycRecord)
    → find id s.kycs ≡ some k
    → (k' : KycRecord) × (find id (review now kyc_id decision s).1.kycs ≡ some k')
      × (k'.encrypted_id_path ≡ k.encrypted_id_path)
unfolding review
review-find now kyc_id id decision s k e = elim (Option-cases (find kyc_id s.kycs)) [
  | inl none_left ↦ (k, rw none_left e, refl)
  | inr (j, f) ↦ elim (Bool-cases (id == kyc_id)) [
    | inl hit ↦ (
      review_kyc now decision k,
      rw (f, sym ((==_iff id kyc_id).0 hit))
          (find-update_self id (review_kyc now decision) s.kycs k (λ _. refl) e),
      refl,
    )
    | inr miss ↦ (
      k,
      rw f (find-update_ne kyc_id id (review_kyc now decision) s.kycs (λ _. refl) (ne miss) ∙ e),
      refl,
    )
  ]
]
  where
    ne : (id == kyc_id) ≡ false → id ≢ kyc_id
    ne miss = ground arith

review-files :
    (now kyc_id : ℕ) (decision : Decision) (s : Registry)
    → (review now kyc_id decision s).1.files ≡ s.files
unfolding review
review-files now kyc_id decision s = elim (Option-cases (find kyc_id s.kycs)) [
  | inl e ↦ rw e refl
  | inr (k, e) ↦ rw e refl
]

module _ (service : KycService) (blob : Bytes) (id : ℕ) (s : Registry)
    (v : IsStored service blob id s) where
  get_decrypted-IsStored :
      (document : Bytes)
      → decrypt_buffer service.cipher blob service.key ≡ some document
      → (get_decrypted_document service id s).0 ≡ ok document
  unfolding get_decrypted_document read
  get_decrypted-IsStored document h = ground (arith, v.found, v.resolved, v.written)

  review-IsStored :
      (now kyc_id : ℕ) (decision : Decision)
      → IsStored service blob id (review now kyc_id decision s).1
  review-IsStored now kyc_id decision =
      let (k', e, path) = review-find now kyc_id id decision s v.kyc v.found in
      record {
        kyc = k';
        target = v.target;
        found = e;
        resolved = rw path v.resolved;
        written = rw (review-files now kyc_id decision s) v.written;
      }

-- Reviews of any records, one after the other.
unfoldable pub review_all : List (ℕ × ℕ × Decision) → Registry → Registry
review_all [] s = s
review_all ((now, kyc_id, decision) ∷ reviews) s =
    review_all reviews (review now kyc_id decision s).1

review_all-IsStored :
    (service : KycService) (blob : Bytes) (id : ℕ) (reviews : List (ℕ × ℕ × Decision))
    (s : Registry)
    → IsStored service blob id s
    → IsStored service blob id (review_all reviews s)
unfolding review_all
review_all-IsStored service blob id [] s v = v
review_all-IsStored service blob id ((now, kyc_id, decision) ∷ reviews) s v =
    review_all-IsStored service blob id reviews (review now kyc_id decision s).1
      (review-IsStored service blob id s v now kyc_id decision)

upsert_ok :
    (s : Registry) (fresh now user_id id : ℕ) (id_number path : Text)
    → (upsert_kyc fresh now user_id id_number path s).0 ≡ ok id
    → find_first (is_of_user user_id) s.kycs ≡ none
    → (id ≡ fresh)
      × ((upsert_kyc fresh now user_id id_number path s).1.kycs
          ≡ s.kycs ++ new_kyc fresh now user_id id_number path ∷ [])
unfolding upsert_kyc
upsert_ok s fresh now user_id id id_number path h e = (ground arith, ground arith)

upsert_old :
    (s : Registry) (fresh now user_id id : ℕ) (id_number path : Text) (k : KycRecord)
    → (upsert_kyc fresh now user_id id_number path s).0 ≡ ok id
    → find_first (is_of_user user_id) s.kycs ≡ some k
    → (id ≡ k.id)
      × ((upsert_kyc fresh now user_id id_number path s).1.kycs
          ≡ update k.id (resubmit id_number path) s.kycs)
unfolding upsert_kyc
upsert_old s fresh now user_id id id_number path k h e = (ground arith, ground arith)

-- The record that `submit` leaves under the id that it returns.
upsert-find :
    (s : Registry) (fresh now user_id id : ℕ) (id_number path : Text)
    → Distinct s.kycs
    → find fresh s.kycs ≡ none
    → (upsert_kyc fresh now user_id id_number path s).0 ≡ ok id
    → (k : KycRecord) × (find id (upsert_kyc fresh now user_id id_number path s).1.kycs ≡ some k)
      × (k.encrypted_id_path ≡ path)
unfolding find
upsert-find s fresh now user_id id id_number path d new h =
    elim (Option-cases (find_first (is_of_user user_id) s.kycs)) [
      | inl e ↦ (
        new_kyc fresh now user_id id_number path,
        rw
            (
              (upsert_ok s fresh now user_id id id_number path h e).1,
              (upsert_ok s fresh now user_id id id_number path h e).0,
            )
            (find-append_none fresh s.kycs (new_kyc fresh now user_id id_number path ∷ []) new
              ∙ ground arith),
        refl,
      )
      | inr (k, e) ↦ (
        resubmit id_number path k,
        rw
            (
              (upsert_old s fresh now user_id id id_number path k h e).1,
              (upsert_old s fresh now user_id id id_number path k h e).0,
            )
            (find-update_self k.id (resubmit id_number path) s.kycs k (λ _. refl)
              (find-first (is_of_user user_id) s.kycs k d e).0),
        refl,
      )
    ]

upsert-files :
    (s : Registry) (fresh now user_id : ℕ) (id_number path : Text)
    → (upsert_kyc fresh now user_id id_number path s).1.files ≡ s.files
unfolding upsert_kyc
upsert-files s fresh now user_id id_number path = ground arith

-- The registry when the file is written.
abbrev saved : Registry → Text → Bytes → Registry
saved s target blob = record s { files = put target blob s.files }

submit_ok :
    (service : KycService) (draw : Draw) (now user_id id : ℕ) (id_number : Text) (document : Bytes)
    (status : KycStatus) (s : Registry)
    → (submit service draw now user_id id_number document s).0 ≡ ok (id, status)
    → let blob = encrypt_buffer service.cipher draw.iv document service.key in
      (target : Text) × (resolve_safe service.storage draw.storage_key ≡ some target)
      × ((upsert_kyc draw.fresh now user_id id_number draw.storage_key (saved s target blob)).0
          ≡ ok id)
      × ((submit service draw now user_id id_number document s).1
          ≡ (upsert_kyc draw.fresh now user_id id_number draw.storage_key (saved s target blob)).1)
unfolding submit save upsert_kyc
submit_ok service draw now user_id id id_number document status s h =
    elim (Option-cases (resolve_safe service.storage draw.storage_key)) [
      | inl e ↦ absurd (ground arith)
      | inr (target, e) ↦ (target, e, ground arith, ground arith)
    ]

-- The document that `submit` took is what `getDecryptedDocument` returns for the id that `submit`
-- returned, at once and after any reviews of any records, approvals and rejections alike. The
-- records' ids are distinct and the new one's is not among them, the vector has twelve bytes, and
-- the cipher opens what it sealed, with a tag of sixteen bytes.
pub get_decrypted-submit :
    (service : KycService) (draw : Draw) (now user_id id : ℕ) (id_number : Text) (document : Bytes)
    (status : KycStatus) (s : Registry) (reviews : List (ℕ × ℕ × Decision))
    → OpensOwn service.cipher
    → length draw.iv ≡ 12
    → Distinct s.kycs
    → find draw.fresh s.kycs ≡ none
    → (submit service draw now user_id id_number document s).0 ≡ ok (id, status)
    → (get_decrypted_document service id
        (review_all reviews (submit service draw now user_id id_number document s).1)).0
      ≡ ok document
get_decrypted-submit service draw now user_id id id_number document status s reviews own twelve d
      new h =
    get_decrypted-IsStored service blob id (review_all reviews after)
      (review_all-IsStored service blob id reviews after stored) document
      (decrypt-encrypt service.cipher draw.iv document service.key own twelve)
  where
    blob : Bytes
    blob = encrypt_buffer service.cipher draw.iv document service.key

    after : Registry
    after = (submit service draw now user_id id_number document s).1

    stored : IsStored service blob id after
    stored =
        let (target, resolved, upserted, same) =
          submit_ok service draw now user_id id id_number document status s h in
        let (k, e, path) =
          upsert-find (saved s target blob) draw.fresh now user_id id id_number draw.storage_key d
            new upserted in
        subst (IsStored service blob id) (sym same) (record {
          kyc = k;
          target = target;
          found = e;
          resolved = rw path resolved;
          written =
              rw
                (upsert-files (saved s target blob) draw.fresh now user_id id_number
                  draw.storage_key)
                (put_self target blob s.files);
        })
