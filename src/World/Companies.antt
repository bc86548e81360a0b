-- ===== src/World/Companies.antt =====
-- `apply_gs_companies` of src/nttd/state/world.py: what a reply says is
-- merged into what is known of a company. In a row none is a field that is missing; no field is null.
pub mod Rows
use nttd.Prelude.{
  ℕ, ◌≡◌, refl, ◌∙◌, ap, Bool, true, false, ◌&&◌, Option, none, some, List, [], ◌∷◌, ◌==◌, nat_eq,
  if◌then◌else◌, Bool-cases, inl, inr, arith,
}
use nttd.Prelude.Dict.{Dict, lookup, insert, lookup-insert}
use nttd.Prelude.Distinct.{contains}
use nttd.Prelude.Int.{ℤ, pos, negsuc, int_eq}
use nttd.GameText.{Text, max_text_length, sanitise}

pub record Company : Type 0 where
  pub id : ℕ
  pub name : Option Text
  pub manager : Text
  pub color : ℤ
  pub money : ℤ
  pub loan : ℤ
  pub max_loan : ℤ
  pub value : ℤ
  pub income : ℤ
  pub profit_last_year : ℤ
  pub is_ai : Bool
  pub is_active : Bool
  pub performance_rating : ℤ
  pub q0_income : ℤ
  pub q0_expenses : ℤ
  pub q0_cargo : ℤ
  pub cargo_delivered_total : ℤ

pub record CompanyRow : Type 0 where
  pub id : Option ℕ
  pub name : Option Text
  pub manager : Option Text
  pub color : Option ℤ
  pub is_ai : Option Bool
  pub money : Option ℤ
  pub balance : Option ℤ
  pub loan : Option ℤ
  pub max_loan : Option ℤ
  pub income : Option ℤ
  pub company_value : Option ℤ
  pub value : Option ℤ
  pub performance_rating : Option ℤ
  pub q0_income : Option ℤ
  pub q0_expenses : Option ℤ
  pub q0_cargo : Option ℤ
  pub cargo_delivered_total : Option ℤ

-- `Company(id=cid)`
abbrev pub new_company : ℕ → Company
new_company id = record {
  id = id;
  name = some [];
  manager = [];
  color = pos 0;
  money = pos 0;
  loan = pos 0;
  max_loan = pos 0;
  value = pos 0;
  income = pos 0;
  profit_last_year = pos 0;
  is_ai = false;
  is_active = true;
  performance_rating = negsuc 0;
  q0_income = pos 0;
  q0_expenses = pos 0;
  q0_cargo = pos 0;
  cargo_delivered_total = pos 0;
}

abbrev or_known : {A : Type 0} → Option A → A → A
or_known none known = known
or_known (some a) known = a

-- The first of two spellings that is there.
abbrev either : Option ℤ → Option ℤ → Option ℤ
either none second = second
either (some a) second = some a

abbrev named : Option Text → Option Text → Option Text
named none known = known
named (some name) known = some name

-- An empty slot: no money, or -1, and no name.
unfoldable pub is_empty_slot : CompanyRow → Bool
is_empty_slot row =
    or_known row.money (negsuc 0) == negsuc 0 && (elim row.name [ none ↦ true | some name ↦ false ])

unfoldable pub merge_company : CompanyRow → Company → Company
merge_company row company = record company {
  name = some (sanitise max_text_length (named row.name company.name));
  manager = or_known row.manager company.manager;
  color = or_known row.color company.color;
  is_ai = or_known row.is_ai company.is_ai;
  is_active = true;
  money = or_known (either row.money row.balance) company.money;
  loan = or_known row.loan company.loan;
  max_loan = or_known row.max_loan company.max_loan;
  income = or_known row.income company.income;
  value = or_known (either row.company_value row.value) company.value;
  performance_rating = or_known row.performance_rating company.performance_rating;
  q0_income = or_known row.q0_income company.q0_income;
  q0_expenses = or_known row.q0_expenses company.q0_expenses;
  q0_cargo = or_known row.q0_cargo company.q0_cargo;
  cargo_delivered_total = or_known row.cargo_delivered_total company.cargo_delivered_total;
}

-- The id of a row that is not skipped.
unfoldable pub id_of : CompanyRow → Option ℕ
unfolding is_empty_slot
id_of row = if is_empty_slot row then none else row.id

abbrev pub known_or_new : ℕ → Option Company → Company
known_or_new id none = new_company id
known_or_new id (some company) = company

abbrev merge_row : CompanyRow → Option ℕ → Dict ℕ Company → Dict ℕ Company
merge_row row none companies = companies
merge_row row (some id) companies =
    insert id (merge_company row (known_or_new id (lookup id companies))) companies

abbrev pub add_id : Option ℕ → List ℕ → List ℕ
add_id none ids = ids
add_id (some id) ids = id ∷ ids

-- `seen`
unfoldable pub seen_ids : List CompanyRow → List ℕ
seen_ids [] = []
seen_ids (row ∷ rows) = add_id (id_of row) (seen_ids rows)

unfoldable pub merge_rows : List CompanyRow → Dict ℕ Company → Dict ℕ Company
merge_rows [] companies = companies
merge_rows (row ∷ rows) companies = merge_rows rows (merge_row row (id_of row) companies)

-- Companies that were not seen are marked inactive.
unfoldable pub deactivate : List ℕ → Dict ℕ Company → Dict ℕ Company
deactivate ids [] = []
deactivate ids ((id, company) ∷ companies) =
    let rest = deactivate ids companies in
    if contains id ids
    then (id, company) ∷ rest
    else (id, record company { is_active = false }) ∷ rest

unfoldable pub apply_gs_companies : List CompanyRow → Dict ℕ Company → Dict ℕ Company
apply_gs_companies results companies = deactivate (seen_ids results) (merge_rows results companies)

-- What the rows of one company make of what was known of it.
abbrev pub merged_row : ℕ → CompanyRow → Option ℕ → Option Company → Option Company
merged_row key row none before = before
merged_row key row (some id) before =
    if id == key then some (merge_company row (known_or_new id before)) else before

abbrev pub merged : ℕ → List CompanyRow → Option Company → Option Company
merged key [] before = before
merged key (row ∷ rows) before = merged key rows (merged_row key row (id_of row) before)

abbrev pub inactive : Option Company → Option Company
inactive none = none
inactive (some company) = some (record company { is_active = false })

lookup-merge_row :
    (key : ℕ) (row : CompanyRow) (id : Option ℕ) (companies : Dict ℕ Company)
    → lookup key (merge_row row id companies) ≡ merged_row key row id (lookup key companies)
lookup-merge_row key row none companies = refl
lookup-merge_row key row (some id) companies = elim (Bool-cases (id == key)) [
  | inl own ↦
      let same : id ≡ key = (nat_eq.same_iff id key).0 own in
      lookup-insert id key _ companies
      ∙ rw own (ap (λ k. some (merge_company row (known_or_new id (lookup k companies)))) same)
  | inr other ↦ lookup-insert id key _ companies ∙ rw other refl
]

lookup-merge_rows :
    (key : ℕ) (rows : List CompanyRow) (companies : Dict ℕ Company)
    → lookup key (merge_rows rows companies) ≡ merged key rows (lookup key companies)
unfolding merge_rows
lookup-merge_rows key [] companies = refl
lookup-merge_rows key (row ∷ rows) companies =
    lookup-merge_rows key rows (merge_row row (id_of row) companies)
    ∙ ap (merged key rows) (lookup-merge_row key row (id_of row) companies)

lookup-deactivate :
    (key : ℕ) (ids : List ℕ) (companies : Dict ℕ Company)
    → lookup key (deactivate ids companies)
      ≡ (if contains key ids then lookup key companies else inactive (lookup key companies))
unfolding deactivate lookup
lookup-deactivate key ids [] = ground arith
lookup-deactivate key ids ((id, company) ∷ companies) =
    ground (arith, nat_eq.same_iff id key, lookup-deactivate key ids companies)

merged_row_unseen :
    (key : ℕ) (row : CompanyRow) (id : Option ℕ) (before : Option Company) (ids : List ℕ)
    → contains key (add_id id ids) ≡ false
    → (merged_row key row id before ≡ before) × (contains key ids ≡ false)
unfolding contains
merged_row_unseen key row none before ids h = (refl, h)
merged_row_unseen key row (some id) before ids h =
    let other : (id == key) ≡ false = ground arith in (rw other refl, ground arith)

-- A row that is skipped, or of another company, leaves a company as it was.
pub merged_unseen :
    (key : ℕ) (rows : List CompanyRow) (before : Option Company)
    → contains key (seen_ids rows) ≡ false
    → merged key rows before ≡ before
unfolding seen_ids contains
merged_unseen key [] before h = refl
merged_unseen key (row ∷ rows) before h =
    let (kept, later) = merged_row_unseen key row (id_of row) before (seen_ids rows) h in
    ap (merged key rows) kept ∙ merged_unseen key rows before later

pub lookup-apply_gs_companies :
    (key : ℕ) (results : List CompanyRow) (companies : Dict ℕ Company)
    → lookup key (apply_gs_companies results companies) ≡ (
        if contains key (seen_ids results)
        then merged key results (lookup key companies)
        else inactive (lookup key companies))
unfolding apply_gs_companies
lookup-apply_gs_companies key results companies =
    let found = lookup-merge_rows key results companies in
    let marked = lookup-deactivate key (seen_ids results) (merge_rows results companies) in
    elim (Bool-cases (contains key (seen_ids results))) [
      | inl seen ↦ marked ∙ rw seen found
      | inr unseen ↦
          marked
          ∙ rw unseen
              (ap inactive (found ∙ merged_unseen key results (lookup key companies) unseen))
    ]
