-- ===== src/Manager/Tests.antt =====
-- Runs of the manager.
use csi_driver_trusted_ca.Common.{
  All, ◌≡◌, ◌↔◌, ◌<◌, refl, true, List, [], ◌∷◌, Bytes, codes, contains, lookup, insert, erase,
  list_beq, arith, nat_eq, list_eq,
}
use csi_driver_trusted_ca.Manager.{
  started, resume, new_manager, Options, Manager, empty, is_managed, manage_volume, unmanage_volume,
  manage_volume_if_not_managed, close_channel,
}
use csi_driver_trusted_ca.Storage.{ok, Storage}
use csi_driver_trusted_ca.Manager.Resume.{
  IsComplete, IsReadable, new_manager_iff, new_manager-is_managed,
}
use csi_driver_trusted_ca.Manager.Channels.{Managed, empty-IsValid}
use csi_driver_trusted_ca.Manager.Runs.{
  Call, manage, unmanage, call, calls, set_calls, calls_channels, calls_refine,
}

abbrev vol_1 : Bytes
vol_1 = codes "v1"

abbrev history : List Call
history = manage vol_1 ∷ manage vol_1 ∷ unmanage vol_1 ∷ manage vol_1 ∷ []

two_made : 0 < (calls history empty).next_channel
unfolding calls call manage_volume unmanage_volume manage_volume_if_not_managed is_managed
    close_channel lookup insert erase contains list_beq
two_made = omega arith

calls_channels_example :
    (contains (calls history empty).closed 0 ≡ true)
    ↔ ((k : Bytes) → ¬ (Managed k 0 (calls history empty)))
calls_channels_example = calls_channels history 0 two_made

calls_refine_example :
    is_managed vol_1 (calls history empty) ≡ set_calls history (λ k. is_managed k empty) vol_1
calls_refine_example = calls_refine history empty empty-IsValid vol_1

-- a storage that lists one volume, whose metadata it has
abbrev one_volume : Storage
one_volume = record {
  State = Unit {0};
  path_for_volume = λ id. id;
  remove_volume = λ id st. (ok tt, st);
  read_metadata = λ id st. ok (record { volume_id = id; target_path = []; volume_context = [] });
  list_volumes = λ st. ok (vol_1 ∷ []);
  write_metadata = λ id meta st. (ok tt, st);
  register_metadata = λ meta st. (ok true, st);
  write_files = λ meta files st. (ok tt, st);
}

abbrev all_set : Options
all_set = record {
  has_log = true;
  has_metadata_reader = true;
  has_get_certificates = true;
  has_write_certificates = true;
  node_id = codes "node";
}

all_set-IsComplete : IsComplete all_set
all_set-IsComplete = record {
  log = refl;
  metadata_reader = refl;
  get_certificates = refl;
  write_certificates = refl;
  node_id = cc;
}

new_manager_iff_example :
    ((m : Manager) × (new_manager one_volume all_set tt ≡ started m))
    ↔ All (IsReadable one_volume tt) (vol_1 ∷ [])
new_manager_iff_example = new_manager_iff one_volume tt all_set (vol_1 ∷ []) all_set-IsComplete refl

abbrev resumed : Manager
resumed = (manage_volume vol_1 empty).1

resumes : new_manager one_volume all_set tt ≡ started resumed
unfolding new_manager resume list_beq
resumes = refl

new_manager-is_managed_example : is_managed vol_1 resumed ≡ contains (vol_1 ∷ []) vol_1
new_manager-is_managed_example =
    new_manager-is_managed one_volume tt all_set (vol_1 ∷ []) resumed vol_1 all_set-IsComplete refl
      resumes
