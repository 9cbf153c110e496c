-- ===== src/Business/Slugs.antt =====
-- The slugs of the businesses, over histories of calls.
use madinaty_ai_core_mesh.Base.{
  ℕ, ◌≤◌, ◌≡◌, refl, ◌⊎◌, arith, inl, inr, false, List, [], ◌∷◌, ◌++◌, Option, none, some, count,
  count-append, find_first, Option-cases,
}
use madinaty_ai_core_mesh.Base.Text.{Text, same_text_iff, truthy}
use madinaty_ai_core_mesh.Base.Table.{find, count-update_blind}
use madinaty_ai_core_mesh.Business.{
  Business, BusinessTenant, kitchen, tutor, Businesses, BusinessInput, ProfileEdit, business_keyed,
  table_of, with_table, has_slug, new_business, edit_business, create_business, update_branding,
  update_profile, deactivate_business, parse_subjects, update_business,
}
use madinaty_ai_core_mesh.Business.Menu.{
  MenuItemInput, MenuItemEdit, create_menu_item, update_menu_item, delete_menu_item,
}

pub data Call (F J : Type 0) : Type 0 where
  creates : ℕ → BusinessTenant → ℕ → BusinessInput J → Call F J
  brands : BusinessTenant → ℕ → J → Call F J
  edits : BusinessTenant → ℕ → ProfileEdit J → Call F J
  deactivates : BusinessTenant → ℕ → Call F J
  adds_item : ℕ → ℕ → MenuItemInput F → Call F J
  edits_item : ℕ → ℕ → MenuItemEdit F → Call F J
  drops_item : ℕ → ℕ → Call F J

module _ {F J : Type 0} (parse : Text → Option J) (no_branding : J) where
  -- The state after a call, whether it returned or threw.
  unfoldable pub step : Businesses F J → Call F J → Businesses F J
  step s (creates fresh tenant owner dto) =
      (create_business parse no_branding fresh tenant owner dto s).1
  step s (brands tenant id branding) = (update_branding tenant id branding s).1
  step s (edits tenant id dto) = (update_profile parse tenant id dto s).1
  step s (deactivates tenant id) = (deactivate_business tenant id s).1
  step s (adds_item fresh business dto) = (create_menu_item fresh business dto s).1
  step s (edits_item business item dto) = (update_menu_item business item dto s).1
  step s (drops_item business item) = (delete_menu_item business item s).1

  unfoldable pub run : Businesses F J → List (Call F J) → Businesses F J
  run s [] = s
  run s (c ∷ cs) = run (step s c) cs

module _ {J : Type 0} where
  abbrev pub slug_count : Text → List (Business J) → ℕ
  slug_count slug bs = count (has_slug slug) bs

  slug_count-free :
      (slug : Text) (bs : List (Business J))
      → find_first (has_slug slug) bs ≡ none
      → slug_count slug bs ≡ 0
  slug_count-free slug [] e = refl
  slug_count-free slug (b ∷ bs) e = ground (arith, slug_count-free slug bs)

module _ {F J : Type 0} where
  update-slugs :
      (tenant other : BusinessTenant) (id : ℕ) (f : Business J → Business J) (s : Businesses F J)
      (slug : Text)
      → ((b : Business J) → has_slug slug (f b) ≡ has_slug slug b)
      → slug_count slug (table_of other (update_business tenant id f s).1)
        ≡ slug_count slug (table_of other s)
  update-slugs kitchen kitchen id f s slug same = elim (Option-cases (find id s.kitchens)) [
    | inl e ↦ ground (arith, e)
    | inr (b, e) ↦ ground (arith, e, count-update_blind (has_slug slug) id f s.kitchens same)
  ]
  update-slugs tutor tutor id f s slug same = elim (Option-cases (find id s.tutors)) [
    | inl e ↦ ground (arith, e)
    | inr (b, e) ↦ ground (arith, e, count-update_blind (has_slug slug) id f s.tutors same)
  ]
  update-slugs kitchen tutor id f s slug same = elim (Option-cases (find id s.kitchens)) [
    | inl e ↦ ground (arith, e)
    | inr (b, e) ↦ ground (arith, e)
  ]
  update-slugs tutor kitchen id f s slug same = elim (Option-cases (find id s.tutors)) [
    | inl e ↦ ground (arith, e)
    | inr (b, e) ↦ ground (arith, e)
  ]

  -- The subjects are parsed before anything is written.
  profile-cases :
      (parse : Text → Option J) (tenant : BusinessTenant) (id : ℕ) (dto : ProfileEdit J)
      (s : Businesses F J)
      → ((update_profile parse tenant id dto s).1 ≡ s)
        ⊎ ((subjects : Option J) × ((update_profile parse tenant id dto s).1
              ≡ (update_business tenant id (edit_business tenant dto subjects) s).1))
  unfolding update_profile parse_subjects
  profile-cases parse kitchen id dto s = inr (none, refl)
  profile-cases parse tutor id dto s = elim (Option-cases dto.subjects) [
    | inl e ↦ inr (none, rw e refl)
    | inr (x, e) ↦ elim (Option-cases (parse x)) [
      | inl bad ↦ inl (ground (arith, e, bad))
      | inr (j, good) ↦ inr (some j, ground (arith, e, good))
    ]
  ]

  create-cases :
      (parse : Text → Option J) (no_branding : J) (fresh owner : ℕ) (tenant : BusinessTenant)
      (dto : BusinessInput J) (s : Businesses F J)
      → ((create_business parse no_branding fresh tenant owner dto s).1 ≡ s)
        ⊎ ((subjects : Option J) × (find_first (has_slug dto.slug) (table_of tenant s) ≡ none)
            × ((create_business parse no_branding fresh tenant owner dto s).1
                ≡ with_table tenant
                    (λ bs. bs ++ new_business no_branding fresh tenant owner dto subjects ∷ [])
                    s))
  unfolding create_business parse_subjects
  create-cases parse no_branding fresh owner kitchen dto s =
      elim (Option-cases (find_first (has_slug dto.slug) s.kitchens)) [
        | inl e ↦ inr (none, e, ground (arith, e))
        | inr (b, e) ↦ inl (ground (arith, e))
      ]
  create-cases parse no_branding fresh owner tutor dto s =
      elim (Option-cases (find_first (has_slug dto.slug) s.tutors)) [
        | inr (b, e) ↦ inl (ground (arith, e))
        | inl e ↦ elim (Option-cases (truthy dto.subjects)) [
          | inl bare ↦ inr (none, e, ground (arith, e, bare))
          | inr (x, f) ↦ elim (Option-cases (parse x)) [
            | inl bad ↦ inl (ground (arith, e, f, bad))
            | inr (j, good) ↦ inr (some j, e, ground (arith, e, f, good))
          ]
        ]
      ]

  append-slugs :
      (tenant other : BusinessTenant) (b : Business J) (s : Businesses F J) (slug : Text)
      → find_first (has_slug b.slug) (table_of tenant s) ≡ none
      → slug_count slug (table_of other s) ≤ 1
      → slug_count slug (table_of other (with_table tenant (λ bs. bs ++ b ∷ []) s)) ≤ 1
  append-slugs kitchen kitchen b s slug free h = ground (
    arith,
    count-append (has_slug slug) s.kitchens (b ∷ []),
    slug_count-free b.slug s.kitchens free,
    (same_text_iff b.slug slug).0,
  )
  append-slugs tutor tutor b s slug free h = ground (
    arith,
    count-append (has_slug slug) s.tutors (b ∷ []),
    slug_count-free b.slug s.tutors free,
    (same_text_iff b.slug slug).0,
  )
  append-slugs kitchen tutor b s slug free h = h
  append-slugs tutor kitchen b s slug free h = h

  adds-tables :
      (s : Businesses F J) (a b : ℕ) (dto : MenuItemInput F) (other : BusinessTenant)
      → table_of other (create_menu_item a b dto s).1 ≡ table_of other s
  unfolding create_menu_item
  adds-tables s a b dto kitchen = ground arith
  adds-tables s a b dto tutor = ground arith

  edits-tables :
      (s : Businesses F J) (a b : ℕ) (dto : MenuItemEdit F) (other : BusinessTenant)
      → table_of other (update_menu_item a b dto s).1 ≡ table_of other s
  unfolding update_menu_item
  edits-tables s a b dto kitchen = ground arith
  edits-tables s a b dto tutor = ground arith

  drops-tables :
      (s : Businesses F J) (a b : ℕ) (other : BusinessTenant)
      → table_of other (delete_menu_item a b s).1 ≡ table_of other s
  unfolding delete_menu_item
  drops-tables s a b kitchen = ground arith
  drops-tables s a b tutor = ground arith

module _ {F J : Type 0} (parse : Text → Option J) (no_branding : J) where
  step-slugs :
      (s : Businesses F J) (c : Call F J) (tenant : BusinessTenant) (slug : Text)
      → slug_count slug (table_of tenant s) ≤ 1
      → slug_count slug (table_of tenant (step parse no_branding s c)) ≤ 1
  unfolding step update_branding deactivate_business
  step-slugs s (creates fresh other owner dto) tenant slug h =
      elim (create-cases parse no_branding fresh owner other dto s) [
        | inl same ↦ rw same h
        | inr (subjects, free, made) ↦ rw made (
            append-slugs other tenant (new_business no_branding fresh other owner dto subjects) s
              slug free h)
      ]
  step-slugs s (brands other id branding) tenant slug h =
      rw (update-slugs other tenant id (λ b. record b { branding = branding }) s slug (λ _. refl)) h
  step-slugs s (edits other id dto) tenant slug h = elim (profile-cases parse other id dto s) [
    | inl same ↦ rw same h
    | inr (subjects, made) ↦
        rw
          (made, update-slugs other tenant id (edit_business other dto subjects) s slug (λ _. refl))
          h
  ]
  step-slugs s (deactivates other id) tenant slug h =
      rw (update-slugs other tenant id (λ b. record b { is_active = false }) s slug (λ _. refl)) h
  step-slugs s (adds_item fresh business dto) tenant slug h =
      rw (adds-tables s fresh business dto tenant) h
  step-slugs s (edits_item business item dto) tenant slug h =
      rw (edits-tables s business item dto tenant) h
  step-slugs s (drops_item business item) tenant slug h = rw (drops-tables s business item tenant) h

  -- However the calls follow each other, each run to its end before the next, no slug stands twice
  -- among the kitchens or among the tutors, if that was so before: a slug names one business of its
  -- tenant.
  pub run-slugs :
      (s : Businesses F J) (cs : List (Call F J))
      → ((tenant : BusinessTenant) (slug : Text) → slug_count slug (table_of tenant s) ≤ 1)
      → (tenant : BusinessTenant) (slug : Text)
      → slug_count slug (table_of tenant (run parse no_branding s cs)) ≤ 1
  unfolding run
  run-slugs s [] unique = unique
  run-slugs s (c ∷ cs) unique =
      run-slugs (step parse no_branding s c) cs
        (λ tenant slug. step-slugs s c tenant slug (unique tenant slug))
