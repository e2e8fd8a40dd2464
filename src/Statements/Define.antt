-- ===== src/Statements/Define.antt =====
-- The columns of a new table.
use npsql.Base.{
  ℕ, ◌+◌, ◌%◌, ◌^◌, ◌≤◌, ◌<◌, ◌≡◌, refl, ap, arith, List, [], ◌∷◌, some, length, ltb, true, false,
  map,
}
use npsql.Sql.{Str, Column}
use npsql.Storage.Layout.{Layout}
use npsql.DataPage.{max_column_name}
use npsql.Catalog.{max_columns}
use npsql.Statements.{ColumnDef, define_columns}

abbrev pub total_size : List ColumnDef → ℕ
total_size [] = 0
total_size (d ∷ ds) = d.size + total_size ds

-- The names have at most MAX_COLUMN_NAME bytes.
abbrev pub Short : List ColumnDef → Type 0
Short [] = Unit {0}
Short (d ∷ ds) = (length d.name ≤ max_column_name) × Short ds

abbrev pub column_names : List Column → List Str
column_names cs = map (λ (c : Column). c.name) cs

abbrev pub def_names : List ColumnDef → List Str
def_names ds = map (λ (d : ColumnDef). d.name) ds

defined :
    (i offset : ℕ) (ds : List ColumnDef)
    → Short ds
    → i + length ds ≤ max_columns
    → offset + total_size ds < 2 ^ 16
    → (cs : List Column) × (define_columns i offset ds ≡ some (some cs))
      × Layout cs offset (offset + total_size ds)
      × (column_names cs ≡ def_names ds)
unfolding define_columns
defined i offset [] short few small = ([], refl, omega arith, refl)
defined i offset (d ∷ ds) (short, shorts) few small =
    let (cs, e, layout, names) =
      defined (i + 1) (offset + d.size) ds shorts (omega arith) (omega arith) in
    let no_wrap : (offset + d.size) % 2 ^ 16 ≡ offset + d.size = omega arith in
    let fits : ltb max_column_name (length d.name) ≡ false = ground arith in
    let room : ltb i max_columns ≡ true = ground arith in
    let total : offset + d.size + total_size ds ≡ offset + (d.size + total_size ds) = omega arith in
    (
      record { type = d.type; size = d.size; name = d.name; offset = offset } ∷ cs,
      rw (fits, room, no_wrap, e) refl,
      (refl, rw total at layout),
      ap (λ ns. d.name ∷ ns) names,
    )

-- Of at most MAX_COLUMNS definitions whose names are not too long and whose sizes add up to less than
-- 2 ^ 16, CREATE TABLE makes columns of those names, in order, one after the other up to the sum of the
-- sizes.
pub define_columns-Layout :
    (ds : List ColumnDef)
    → Short ds
    → length ds ≤ max_columns
    → total_size ds < 2 ^ 16
    → (cs : List Column) × (define_columns 0 0 ds ≡ some (some cs))
      × Layout cs 0 (total_size ds)
      × (column_names cs ≡ def_names ds)
define_columns-Layout ds short few small =
    let (cs, e, layout, names) = defined 0 0 ds short (omega arith) (omega arith) in
    let total : 0 + total_size ds ≡ total_size ds = omega arith in
    (cs, e, rw total at layout, names)
