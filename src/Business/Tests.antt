-- ===== src/Business/Tests.antt =====
-- Two kitchens that ask for one slug.
use madinaty_ai_core_mesh.Base.{ℕ, ◌≤◌, arith, Option, none, List, [], ◌∷◌}
use madinaty_ai_core_mesh.Base.Text.{Text, codes}
use madinaty_ai_core_mesh.Business.{
  BusinessTenant, kitchen, tutor, Businesses, BusinessInput, table_of,
}
use madinaty_ai_core_mesh.Business.Slugs.{Call, creates, deactivates, run, run-slugs, slug_count}

abbrev none_yet : Businesses ℕ ℕ
none_yet = record { kitchens = []; tutors = []; menu_items = [] }

abbrev alis : BusinessInput ℕ
alis = record {
  slug = codes "ali";
  name = codes "Ali";
  branding = none;
  description = none;
  cuisine_type = none;
  subjects = none;
  qualifications = none;
  address = none;
  phone = none;
  opening_hours = none;
}

abbrev two_alis : List (Call ℕ ℕ)
two_alis =
    creates 1 kitchen 7 alis
    ∷ creates 2 kitchen 8 alis
    ∷ deactivates kitchen 1
    ∷ creates 3 kitchen 8 alis
    ∷ []

abbrev no_parser : Text → Option ℕ
no_parser _ = none

run-slugs_example :
    slug_count (codes "ali") (table_of kitchen (run no_parser 0 none_yet two_alis)) ≤ 1
run-slugs_example = run-slugs no_parser 0 none_yet two_alis unique kitchen (codes "ali")
  where
    unique :
        (tenant : BusinessTenant) (slug : Text) → slug_count slug (table_of tenant none_yet) ≤ 1
    unique kitchen slug = omega arith
    unique tutor slug = omega arith
