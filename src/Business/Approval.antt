-- ===== src/Business/Approval.antt =====
-- What the administration does to kitchens: apps/core-hub/src/modules/admin/admin.service.ts.
use madinaty_ai_core_mesh.Base.{ℕ, Bool, true, false, not}
use madinaty_ai_core_mesh.Base.Action.{Action, pure, gets, modify, or_throw, ◌>>=◌, ◌>>◌}
use madinaty_ai_core_mesh.Base.Table.{find, update}
use madinaty_ai_core_mesh.Business.{
  Business, Businesses, ApprovalStatus, approved, rejected, kitchen, business_keyed, with_table,
}

pub data Error : Type 0 where
  kitchen_not_found : Error

module _ {J : Type 0} where
  abbrev pub flip_active : Business J → Business J
  flip_active b = record b { is_active = not b.is_active }

  abbrev pub decide : ApprovalStatus → Bool → Business J → Business J
  decide status active b = record b { status = status; is_active = active }

module _ {F J : Type 0} where
  -- The look-up of a kitchen and the update of its row.
  unfoldable pub change_kitchen :
      (Business J → Business J) → ℕ → Action Error (Businesses F J) (Business J)
  change_kitchen f id = do
    row ← gets λ s. find id s.kitchens
    business ← or_throw row kitchen_not_found
    modify (with_table kitchen (update id f))
    pure (f business)

  unfoldable pub toggle_kitchen_active : ℕ → Action Error (Businesses F J) (Business J)
  toggle_kitchen_active id = change_kitchen flip_active id

  unfoldable pub approve_kitchen : ℕ → Action Error (Businesses F J) (Business J)
  approve_kitchen id = change_kitchen (decide approved true) id

  unfoldable pub reject_kitchen : ℕ → Action Error (Businesses F J) (Business J)
  reject_kitchen id = change_kitchen (decide rejected false) id

  unfoldable pub update_kitchen_branding : ℕ → J → Action Error (Businesses F J) (Business J)
  update_kitchen_branding id branding = change_kitchen (λ b. record b { branding = branding }) id
