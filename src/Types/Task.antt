-- ===== src/Types/Task.antt =====
-- `TaskSpec` of src/types/task.rs.
use unlimited_ocr_server.Prelude.{Text, Option, none, some, and_then, trim, is_empty, if◌then◌else◌}

pub record TaskSpec : Type 0 where
  pub text_input : Option Text

unfoldable pub normalize_optional_text : Text → Option Text
normalize_optional_text text =
    let trimmed = trim text in if is_empty trimmed then none else some trimmed

unfoldable pub from_text_input : Option Text → TaskSpec
unfolding normalize_optional_text
from_text_input text_input = record { text_input = and_then text_input normalize_optional_text }
