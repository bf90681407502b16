-- ===== src/Tests/Crate.antt =====
-- Stand-ins for the crates, which show that what is assumed of them can hold: a digest of the length,
-- a coder that copies, and a database in memory whose faults follow a script.
pub mod Laws
use aperip_nomos.Prelude.{
  ℕ, suc, ◌+◌, ◌*◌, ◌/◌, ◌%◌, ◌≡◌, refl, inl, inr, ◌⊎◌, Bool, true, false, ◌&&◌, List, [], ◌∷◌,
  Option, some, none, arith, ltb, ◌==◌, if◌then◌else◌, length, all, zero,
}
use aperip_nomos.Prelude.Result.{Result, ok, err}
use aperip_nomos.Text.{Text, text_eq}
use aperip_nomos.Text.Utf8.{Bytes}
use aperip_nomos.Domain.{Digests, is_hex_digit}
use aperip_nomos.Sql.Reading.{Row, read_insert, read_delete, strip_prefix}
use aperip_nomos.Database.{
  Base64, Crates, CommandOutput, rows, nothing, Rnmdb, RnmdbLaws, begin_sql, commit_sql,
  rollback_sql, load_licenses_sql, create_table_sql, id_index_sql, slug_index_sql, insert_row,
  delete_rows,
}

abbrev pub zeros : ℕ → Bytes
zeros zero = []
zeros (suc n) = 0 ∷ zeros n

abbrev pub hex_digit : ℕ → ℕ
hex_digit n = if ltb n 10 then b'0' + n else 87 + n

abbrev pub hex_encode : Bytes → Text
hex_encode [] = []
hex_encode (b ∷ s) = hex_digit (b / 16 % 16) ∷ hex_digit (b % 16) ∷ hex_encode s

pub length-hex_encode : (s : Bytes) → length (hex_encode s) ≡ 2 * length s
length-hex_encode [] = omega arith
length-hex_encode (b ∷ s) = omega (arith, length-hex_encode s)

hex_digit_hex : (n : ℕ) → is_hex_digit (hex_digit (n % 16)) ≡ true
hex_digit_hex n = ground arith

pub all-hex_encode : (s : Bytes) → all is_hex_digit (hex_encode s) ≡ true
all-hex_encode [] = refl
all-hex_encode (b ∷ s) = rw (hex_digit_hex (b / 16), hex_digit_hex b, all-hex_encode s)

abbrev pub digests : Digests
digests = record {
  digest = λ s. (length s % 256) ∷ zeros 31;
  hex_encode = hex_encode;
  length_digest = λ s. refl;
  length_hex = length-hex_encode;
  hex_digits = all-hex_encode;
}

abbrev pub base64 : Base64
base64 = record { encode = λ s. s; decode = λ s. some s; decode_encode = λ s. refl }

-- What the next statement does: it works, it fails without effect, or it has its effect and fails.
pub data Fault : Type 0 where
  works fails lost : Fault

pub record Memory : Type 0 where
  pub table : List Row
  pub pending : Option (List Row)
  pub script : List Fault

pub data Statement : Type 0 where
  begin commit rollback select quiet : Statement
  insert : Row → Statement
  delete : Text → Statement

unfoldable pub fixed_statement : Text → Statement
fixed_statement sql =
    if text_eq sql begin_sql
    then begin
    else if text_eq sql commit_sql
    then commit
    else if text_eq sql rollback_sql
    then rollback
    else if text_eq sql load_licenses_sql
    then select
    else quiet

unfoldable pub classify : Text → Statement
classify sql = elim (read_insert sql) [
  | some row ↦ insert row
  | none ↦ elim (read_delete sql) [ some slug ↦ delete slug | none ↦ fixed_statement sql ]
]

abbrev pub next_fault : List Fault → Fault
next_fault [] = works
next_fault (f ∷ rest) = f

abbrev pub later : List Fault → List Fault
later [] = []
later (f ∷ rest) = rest

abbrev pub Reply : Type 0
Reply = Result Text CommandOutput × Memory

unfoldable pub run_commit : Option (List Row) → Fault → Memory → Reply
run_commit none f w = (err [], w)
run_commit (some t) works w = (ok nothing, record w { table = t; pending = none })
run_commit (some t) fails w = (err [], w)
run_commit (some t) lost w = (err [], record w { table = t; pending = none })

unfoldable pub change : Option (List Row) → (List Row → List Row) → Fault → Memory → Reply
change none g f w = (err [], w)
change (some t) g works w = (ok nothing, record w { pending = some (g t) })
change (some t) g _ w = (err [], w)

unfoldable pub run : Statement → Fault → Memory → Reply
unfolding run_commit change
run begin works w = (ok nothing, record w { pending = some w.table })
run begin _ w = (err [], w)
run commit f w = run_commit w.pending f w
run rollback f w = (ok nothing, record w { pending = none })
run select works w = (ok (rows w.table), w)
run select _ w = (err [], w)
run quiet works w = (ok nothing, w)
run quiet _ w = (err [], w)
run (insert row) f w = change w.pending (insert_row row) f w
run (delete slug) f w = change w.pending (delete_rows slug) f w

unfoldable pub step : Statement → Memory → Reply
step st w = run st (next_fault w.script) (record w { script = later w.script })

abbrev pub memory_db : Rnmdb
memory_db = record {
  World = Memory;
  Session = Unit {0};
  RnovError = Text;
  open_session = λ path key w. (ok tt, w);
  execute = λ s sql w. step (classify sql) w;
  checkpoint = λ s w. (ok tt, w);
  close = λ s w. record w { pending = none };
}

abbrev pub crates : Crates
crates = record { digests = digests; base64 = base64; db = memory_db }
