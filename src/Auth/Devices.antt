-- ===== src/Auth/Devices.antt =====
-- apps/core-hub/src/modules/auth/device-token.service.ts: the devices that get push notifications.
use madinaty_ai_core_mesh.Base.{
  ℕ, Bool, true, false, List, [], ◌∷◌, ◌++◌, Option, if◌then◌else◌, any,
}
use madinaty_ai_core_mesh.Base.Text.{Text, same_text}
use madinaty_ai_core_mesh.Base.Table.{Keyed, update_where}
use madinaty_ai_core_mesh.Users.{over}

pub record PushDevice : Type 0 where
  pub id : ℕ
  pub token : Text
  pub user_id : ℕ
  pub platform : Text
  pub app_slug : Option Text
  pub is_active : Bool

instance abbrev pub device_keyed : Keyed PushDevice
device_keyed = record { key = λ d. d.id }

abbrev pub has_token : Text → PushDevice → Bool
has_token token d = same_text d.token token

-- `register`: an upsert by token. An application slug that is left out stays as it was.
abbrev pub refresh_device : ℕ → Text → Option Text → PushDevice → PushDevice
refresh_device user_id platform app_slug d = record d {
  user_id = user_id;
  platform = platform;
  app_slug = over app_slug d.app_slug;
  is_active = true;
}

unfoldable pub register_device :
    ℕ → ℕ → Text → Text → Option Text → List PushDevice → List PushDevice
register_device fresh user_id token platform app_slug devices =
    if any (has_token token) devices
    then update_where (has_token token) (refresh_device user_id platform app_slug) devices
    else devices
      ++ record {
        id = fresh;
        token = token;
        user_id = user_id;
        platform = platform;
        app_slug = app_slug;
        is_active = true;
      }
        ∷ []

-- `unregister`
unfoldable pub unregister_device : Text → List PushDevice → List PushDevice
unregister_device token devices =
    update_where (has_token token) (λ d. record d { is_active = false }) devices
