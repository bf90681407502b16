-- ===== src/Tests/Config.antt =====
-- The configuration of src/config.rs over two files.
use aperip_nomos.Config.Redacted.{
  DebugValue, debug_service_config, with_files, debug_service_config-redacts,
}
use aperip_nomos.Prelude.{
  ℕ, ◌+◌, ◌*◌, ◌-◌, ◌≡◌, refl, List, [], ◌∷◌, ◌++◌, some, length, if◌then◌else◌,
}
use aperip_nomos.Prelude.Result.{Result, ok}
use aperip_nomos.Text.{Text, codes, text_eq}
use aperip_nomos.Text.Utf8.{Bytes}
use aperip_nomos.Config.{
  ConfigValues, Platform, ServiceConfig, parse_address, decode_secret, read_secret, read_page_key,
  read_admin_token, from_values,
}
use aperip_nomos.Config.Valid.{IsValidConfig, from_values-IsValidConfig}
use aperip_nomos.Tests.Domain.{program}

-- the value of each pair of decimal digits
abbrev pub decode_pairs : Text → Bytes
decode_pairs (a ∷ b ∷ s) = ((a - 48) * 16 + (b - 48)) ∷ decode_pairs s
decode_pairs s = []

abbrev pub key_text : Text
key_text = codes "0123456701234567012345670123456701234567012345670123456701234567"

abbrev swapped : Text
swapped = codes "7654321076543210765432107654321076543210765432107654321076543210"

abbrev pub token_text : Text
token_text = codes "a-token-of-more-than-32-characters"

-- an address stands for its length
abbrev pub two_files : Platform
two_files = record {
  SocketAddr = ℕ;
  IoError = Unit {0};
  parse = λ s. some (length s);
  port = λ a. a;
  read = λ path. ok (if text_eq path (codes "key") then key_text else (token_text ++ 10 ∷ []));
  invalid_data = tt;
  hex_decode = λ s. some (decode_pairs s);
}

abbrev values : ConfigValues
values = record {
  public_bind_addr = codes "0.0.0.0:54871";
  admin_bind_addr = codes "127.0.0.1:54872";
  database_path = codes "nomos.rnmdb";
  page_key_file = codes "key";
  admin_token_file = codes "token";
}

abbrev settled : ServiceConfig two_files
settled = record {
  public_bind_addr = 13;
  admin_bind_addr = 15;
  database_path = codes "nomos.rnmdb";
  page_key = decode_pairs key_text;
  admin_token = token_text;
}

accepted : from_values two_files values ≡ ok settled
unfolding program parse_address decode_secret read_secret read_page_key read_admin_token from_values
accepted = refl

from_values-IsValidConfig_example : IsValidConfig two_files values settled
from_values-IsValidConfig_example = from_values-IsValidConfig two_files values settled accepted

-- another key
abbrev other_key : Text → Result (Unit {0}) Bytes
other_key path = ok (if text_eq path (codes "key") then swapped else token_text)

abbrev other_settled : ServiceConfig (with_files two_files other_key)
other_settled = record {
  public_bind_addr = 13;
  admin_bind_addr = 15;
  database_path = codes "nomos.rnmdb";
  page_key = decode_pairs swapped;
  admin_token = token_text;
}

accepted_other : from_values (with_files two_files other_key) values ≡ ok other_settled
unfolding program parse_address decode_secret read_secret read_page_key read_admin_token from_values
accepted_other = refl

-- what is printed is the names of the fields
abbrev names : Text → List (Text × DebugValue ℕ) → Text
names name [] = name
names name (field ∷ fields) = names (name ++ field.0) fields

debug_service_config-redacts_example :
    debug_service_config two_files names settled
    ≡ debug_service_config (with_files two_files other_key) names other_settled
debug_service_config-redacts_example =
    debug_service_config-redacts two_files names other_key values settled other_settled accepted
      accepted_other
