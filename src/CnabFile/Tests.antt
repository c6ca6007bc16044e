-- ===== src/CnabFile/Tests.antt =====
-- The theorem on CNAB files at a concrete history.
use payments_hub.Base.{◌≡◌, refl, none, List, [], ◌∷◌}
use payments_hub.Base.Bytes.{codes}
use payments_hub.CnabFile.{
  Status, generated, uploaded, awaiting_return, returned, closed, remessa, transition, File,
  apply_transition,
}
use payments_hub.CnabFile.Lifecycle.{apply_all, remaining, closed_history}

abbrev file : File
file = record {
  id = 1;
  run_id = 3;
  bank_code = codes "341";
  layout_version = codes "080";
  sequence_number = 1;
  direction = remessa;
  file_path = codes "/remessa/1.rem";
  file_hash = codes "ab";
  status = generated;
  total_items = 2;
  generated_at = none;
  uploaded_at = none;
  upload_ack = [];
  returned_at = none;
  processed_at = none;
}

abbrev to_the_end : List Status
to_the_end = uploaded ∷ awaiting_return ∷ returned ∷ closed ∷ []

closed_history_example : to_the_end ≡ remaining file.status
unfolding apply_all apply_transition transition
closed_history_example = closed_history file to_the_end (record file { status = closed }) refl refl
