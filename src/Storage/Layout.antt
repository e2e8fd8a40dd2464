-- ===== src/Storage/Layout.antt =====
-- The columns of a record follow one another and fill it.
use npsql.Base.{
  ℕ, zero, suc, ◌+◌, ◌%◌, ◌^◌, ◌<◌, ◌≤◌, ◌≡◌, refl, List, [], ◌∷◌, ◌++◌, arith, some, get_elem?,
}
use npsql.Sql.{Str, Column, TableInfo}
use npsql.Storage.{add_int, add_char}

-- From byte `at` on the columns stand one after the other, and the last ends at `size`.
abbrev pub Layout : List Column → ℕ → ℕ → Type 0
Layout [] at size = at ≡ size
Layout (c ∷ cs) at size = (c.offset ≡ at) × Layout cs (at + c.size) size

Layout-append :
    (cs : List Column) (at size : ℕ) (c : Column)
    → Layout cs at size
    → c.offset ≡ size
    → Layout (cs ++ (c ∷ [])) at (size + c.size)
Layout-append [] at size c l e = omega arith
Layout-append (d ∷ cs) at size c l e = (l.0, Layout-append cs (at + d.size) size c l.1 e)

fits :
    (table : TableInfo) (s : ℕ)
    → table.record_size + s < 2 ^ 16
    → (table.record_size + s) % 2 ^ 16 ≡ table.record_size + s
fits table s h = omega arith

-- `add_int` and `add_char` keep a table's columns one after the other up to the end of the record, as
-- long as the record's size fits sixteen bits.
pub add_column-Layout :
    (table : TableInfo) (name : Str) (size : ℕ)
    → Layout table.columns 0 table.record_size
    → table.record_size + 4 < 2 ^ 16
    → table.record_size + size < 2 ^ 16
    → Layout (add_int table name).columns 0 (add_int table name).record_size
      × Layout (add_char table name size).columns 0 (add_char table name size).record_size
unfolding add_int add_char
add_column-Layout table name size l small small' = (
  rw (fits table 4 small) (Layout-append table.columns 0 table.record_size _ l refl),
  rw (fits table size small') (Layout-append table.columns 0 table.record_size _ l refl),
)

Layout-le : (cs : List Column) (at size : ℕ) → Layout cs at size → at ≤ size
Layout-le [] at size l = omega arith
Layout-le (c ∷ cs) at size l = omega (arith, Layout-le cs (at + c.size) size l.1)

within :
    (cs : List Column) (at size j : ℕ) (d : Column)
    → Layout cs at size
    → get_elem? cs j ≡ some d
    → (at ≤ d.offset) × (d.offset + d.size ≤ size)
within [] at size j d l e = absurd cc
within (c ∷ cs) at size zero d l e =
    let same : c ≡ d = cc in
    let here : (at ≤ c.offset) × (c.offset + c.size ≤ size) =
      (omega (arith, l.0), omega (arith, l.0, Layout-le cs (at + c.size) size l.1)) in
    rw same at here
within (c ∷ cs) at size (suc j) d l e =
    let rest = within cs (at + c.size) size j d l.1 e in (omega (arith, rest.0), rest.1)

-- Two columns of a layout share no byte of the record, and each lies within it.
pub Layout-apart :
    (cs : List Column) (at size i j : ℕ) (c d : Column)
    → Layout cs at size
    → get_elem? cs i ≡ some c
    → get_elem? cs j ≡ some d
    → i < j
    → (at ≤ c.offset) × (c.offset + c.size ≤ d.offset) × (d.offset + d.size ≤ size)
Layout-apart [] at size i j c d l ei ej h = absurd cc
Layout-apart (x ∷ cs) at size i zero c d l ei ej h = absurd (omega arith)
Layout-apart (x ∷ cs) at size zero (suc j) c d l ei ej h =
    let rest = within cs (at + x.size) size j d l.1 ej in
    let same : x ≡ c = cc in
    let here : (at ≤ x.offset) × (x.offset + x.size ≤ d.offset) × (d.offset + d.size ≤ size) =
      (omega (arith, l.0), omega (arith, l.0, rest.0), rest.1) in
    rw same at here
Layout-apart (x ∷ cs) at size (suc i) (suc j) c d l ei ej h =
    let rest = Layout-apart cs (at + x.size) size i j c d l.1 ei ej (omega arith) in
    (omega (arith, rest.0), rest.1, rest.2)
