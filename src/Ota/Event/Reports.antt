-- ===== src/Ota/Event/Reports.antt =====
-- Which statuses become events, and for which update.
use text.Mathlib.Text.{◌==◌ as str_eq}
use edgehog_device_runtime.Base.{ℕ, String, ◌≡◌, refl, Bool, true, false, Option, none, some}
use edgehog_device_runtime.Ota.Status.{
  OtaStatus, OtaId, idle, init, no_pending_ota, rebooted, failure, ota_id,
}
use edgehog_device_runtime.Ota.Event.{OtaEvent, as_event}

-- The statuses that are kept from the cloud.
abbrev pub is_silent : OtaStatus → Bool
is_silent idle = true
is_silent (init _) = true
is_silent no_pending_ota = true
is_silent rebooted = true
is_silent (failure _ none) = true
is_silent _ = false

module _ (uuid_text : ℕ → String) where
  abbrev pub Describes : OtaStatus → Option OtaEvent → Type 0
  Describes st none = is_silent st ≡ true
  Describes st (some e) =
      (is_silent st ≡ false)
      × ((id : OtaId) × (ota_id st ≡ some id) × (e.request_uuid ≡ uuid_text id.uuid))

  -- Every status of an update but the silent ones is sent as an event, with the identifier of that
  -- update; a silent one is not sent. The text of an identifier is not empty.
  pub as_event-Describes :
      (st : OtaStatus)
      → ((u : ℕ) → str_eq (uuid_text u) "" ≡ false)
      → Describes st (as_event uuid_text st)
  unfolding as_event ota_id
  as_event-Describes (OtaStatus.acknowledged id) h = rw (h id.uuid) (refl, (id, refl, refl))
  as_event-Describes (OtaStatus.downloading id p) h = rw (h id.uuid) (refl, (id, refl, refl))
  as_event-Describes (OtaStatus.deploying id p) h = rw (h id.uuid) (refl, (id, refl, refl))
  as_event-Describes (OtaStatus.deployed id) h = rw (h id.uuid) (refl, (id, refl, refl))
  as_event-Describes (OtaStatus.rebooting id) h = rw (h id.uuid) (refl, (id, refl, refl))
  as_event-Describes (OtaStatus.success id) h = rw (h id.uuid) (refl, (id, refl, refl))
  as_event-Describes (OtaStatus.error e id) h = rw (h id.uuid) (refl, (id, refl, refl))
  as_event-Describes (OtaStatus.failure e (some id)) h = rw (h id.uuid) (refl, (id, refl, refl))
  as_event-Describes (failure e none) h = refl
  as_event-Describes idle h = refl
  as_event-Describes (init _) h = refl
  as_event-Describes no_pending_ota h = refl
  as_event-Describes rebooted h = refl
