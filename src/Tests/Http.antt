-- ===== src/Tests/Http.antt =====
-- An upload in two chunks, and the headers of an administrator.
use aperip_nomos.Prelude.{◌≡◌, refl, List, [], ◌∷◌, none, some}
use aperip_nomos.Prelude.Int.{pos}
use aperip_nomos.Prelude.Result.{Result, ok}
use aperip_nomos.Text.{Text, codes}
use aperip_nomos.Http.{ApiError}
use aperip_nomos.Http.Admin.{
  Field, read_chunks, read_file, read_file_field, read_named, read_field, parse_from, parse_upload,
  draft_of,
}
use aperip_nomos.Tests.Crate.{digests}
use aperip_nomos.Tests.Domain.{mit, program, filename}

abbrev pub file : Field
file = record {
  name = some (codes "file");
  file_name = some filename;
  chunks = some (codes "Permission ") ∷ some (codes "granted") ∷ [];
  text = none;
}

abbrev pub pass : Text
pass = codes "0123456789abcdef0123456789abcdef"

-- a handler that counts its runs
abbrev count : List (Unit {0}) → Result ApiError (Unit {0}) × List (Unit {0})
count runs = (ok tt, tt ∷ runs)

drafted : draft_of digests (some file ∷ []) (some (pos 7)) ≡ ok mit
unfolding program draft_of parse_upload parse_from read_field read_named read_file_field read_file
    read_chunks
drafted = refl
