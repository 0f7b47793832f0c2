-- ===== src/Status.antt =====
-- util/status.h and util/status.cc: the result of an operation, and its text.
use Prim.Native.String.{String, ◌++◌}
use text.Mathlib.Text.{◌==◌}
use kingdb.Prelude.{Bool, true, false, ◌≡◌, refl, if◌then◌else◌}

pub data Code : Type 0 where
  ok not_found delete_order invalid_argument io_error done multipart_required : Code

pub record Status : Type 0 where
  pub code : Code
  pub message1 : String
  pub message2 : String

-- The constructor that takes a code alone leaves both messages empty.
abbrev pub of_code : Code → Status
of_code c = record { code = c; message1 = ""; message2 = "" }

abbrev pub status_ok : Status
status_ok = of_code Code.ok

abbrev pub status_delete_order : Status
status_delete_order = of_code Code.delete_order

abbrev pub status_not_found : String → Status
status_not_found message1 = record { code = Code.not_found; message1 = message1; message2 = "" }

abbrev pub status_io_error : String → Status
status_io_error message1 = record { code = Code.io_error; message1 = message1; message2 = "" }

abbrev pub code_is_ok : Code → Bool
code_is_ok Code.ok = true
code_is_ok _ = false

abbrev pub is_ok : Status → Bool
is_ok s = code_is_ok s.code

abbrev pub code_is_delete_order : Code → Bool
code_is_delete_order Code.delete_order = true
code_is_delete_order _ = false

abbrev pub is_delete_order : Status → Bool
is_delete_order s = code_is_delete_order s.code

unfoldable pub code_text : Code → String
code_text Code.ok = "OK"
code_text Code.not_found = "Not found: "
code_text Code.delete_order = "Delete order: "
code_text Code.invalid_argument = "Invalid argument: "
code_text Code.io_error = "IO error: "
code_text Code.done = "Done: "
code_text Code.multipart_required =
    "MultipartRequired: the entry is too large to fit in memory, use the multipart API instead."

unfoldable pub to_string : Status → String
unfolding code_text
to_string s =
    if s.message1 == ""
    then "OK"
    else let result = code_text s.code ++ s.message1 in
      if s.message2 == "" then result else result ++ (" - " ++ s.message2)

-- A status that carries a code alone prints as "OK", whatever the code.
pub to_string-of_code : (c : Code) → to_string (of_code c) ≡ "OK"
unfolding to_string
to_string-of_code c = refl
