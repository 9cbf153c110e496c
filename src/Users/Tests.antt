-- ===== src/Users/Tests.antt =====
-- An identity document of two bytes, with a cipher that writes the tag of zeros.
use madinaty_ai_core_mesh.Base.{◌≡◌, refl, some, [], ◌∷◌}
use madinaty_ai_core_mesh.Base.Text.{codes, starts_with}
use madinaty_ai_core_mesh.Base.Dict.{no_entries}
use madinaty_ai_core_mesh.Base.Action.{ok}
use madinaty_ai_core_mesh.Base.Table.{find}
use madinaty_ai_core_mesh.Core.{Role, pending}
use madinaty_ai_core_mesh.Users.{Registry, new_user, no_metadata}
use madinaty_ai_core_mesh.Users.Kyc.{
  Bytes, Cipher, KycService, Draw, approve, submit, get_decrypted_document, upsert_kyc, save,
  resolve_safe,
}
use madinaty_ai_core_mesh.Users.Kyc.Stored.{review_all, get_decrypted-submit}

abbrev zeros : Bytes
zeros = 0 ∷ 0 ∷ 0 ∷ 0 ∷ 0 ∷ 0 ∷ 0 ∷ 0 ∷ 0 ∷ 0 ∷ 0 ∷ 0 ∷ []

abbrev plain : Cipher
plain = record {
  seal = λ key iv text. (text, 0 ∷ 0 ∷ 0 ∷ 0 ∷ zeros);
  unseal = λ key iv tag text. some text;
}

abbrev service : KycService
service = record { cipher = plain; key = []; storage = record { root = []; resolve = λ k. k } }

abbrev draw : Draw
draw = record { fresh = 4; iv = zeros; storage_key = codes "1/x.enc" }

abbrev one_user : Registry
one_user = record {
  users = new_user 1 0 (codes "010") Role.user no_metadata ∷ [];
  kycs = [];
  files = no_entries;
}

get_decrypted-submit_example :
    (get_decrypted_document service 4 (
      review_all
        ((9, 4, approve) ∷ [])
        (submit service draw 5 1 (codes "29") (7 ∷ 8 ∷ []) one_user).1)).0
    ≡ ok (7 ∷ 8 ∷ [])
unfolding submit find save resolve_safe starts_with upsert_kyc
get_decrypted-submit_example =
    get_decrypted-submit service draw 5 1 4 (codes "29") (7 ∷ 8 ∷ []) pending one_user
      ((9, 4, approve) ∷ []) (λ _ _ _. (refl, refl)) refl tt refl refl
