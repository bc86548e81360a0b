-- ===== src/World/Companies/Rows.antt =====
-- `apply_gs_companies` of src/nttd/state/world.py, company by company: the fields that its rows give.
use nttd.Prelude.{
  ℕ, ◌≡◌, refl, sym, ◌∙◌, ap, Bool, true, false, not, ◌&&◌, ◌||◌, Option, none, some, List, [], ◌∷◌,
  ◌==◌, nat_eq, if◌then◌else◌, Bool-cases, inl, inr, arith,
}
use nttd.Prelude.Dict.{Dict, lookup}
use nttd.Prelude.Distinct.{contains}
use nttd.Prelude.Int.{negsuc, int_eq}
use nttd.GameText.{Text, max_text_length, sanitise}
use nttd.World.Companies.{
  Company, CompanyRow, new_company, known_or_new, is_empty_slot, merge_company, id_of, seen_ids,
  apply_gs_companies, merged_row, merged, inactive, lookup-apply_gs_companies,
}

-- A row of a company that exists has a name, or money that is not -1.
abbrev pub exists : CompanyRow → Bool
exists row =
    (elim row.name [ none ↦ false | some name ↦ true ])
    || (elim row.money [ none ↦ false | some money ↦ not (money == negsuc 0) ])

abbrev is_own : ℕ → CompanyRow → Bool
is_own key row = exists row && (elim row.id [ none ↦ false | some id ↦ id == key ])

-- The rows of one company that exists.
abbrev pub own_rows : ℕ → List CompanyRow → List CompanyRow
own_rows key [] = []
own_rows key (row ∷ rows) = if is_own key row then row ∷ own_rows key rows else own_rows key rows

abbrev given : {A : Type 0} → Option A → A → A
given none known = known
given (some value) known = value

-- The last value that the rows give a field, or what was known.
abbrev latest : {A : Type 0} → (CompanyRow → Option A) → List CompanyRow → A → A
latest field [] known = known
latest field (row ∷ rows) known = latest field rows (given (field row) known)

-- The value of the first key, or of the second where the first is missing.
abbrev one_of : {A : Type 0} → Option A → Option A → Option A
one_of none second = second
one_of (some value) second = some value

-- The name that was known or given last is made safe with each row.
abbrev cleaned : List CompanyRow → Option Text → Option Text
cleaned [] known = known
cleaned (row ∷ rows) known = cleaned rows (some (sanitise max_text_length (one_of row.name known)))

-- The company that these rows describe, where it was known as `company`.
abbrev described : List CompanyRow → Company → Company
described rows company = record {
  id = company.id;
  name = cleaned rows company.name;
  manager = latest (λ row. row.manager) rows company.manager;
  color = latest (λ row. row.color) rows company.color;
  money = latest (λ row. one_of row.money row.balance) rows company.money;
  loan = latest (λ row. row.loan) rows company.loan;
  max_loan = latest (λ row. row.max_loan) rows company.max_loan;
  value = latest (λ row. one_of row.company_value row.value) rows company.value;
  income = latest (λ row. row.income) rows company.income;
  profit_last_year = company.profit_last_year;
  is_ai = latest (λ row. row.is_ai) rows company.is_ai;
  is_active = true;
  performance_rating = latest (λ row. row.performance_rating) rows company.performance_rating;
  q0_income = latest (λ row. row.q0_income) rows company.q0_income;
  q0_expenses = latest (λ row. row.q0_expenses) rows company.q0_expenses;
  q0_cargo = latest (λ row. row.q0_cargo) rows company.q0_cargo;
  cargo_delivered_total =
      latest (λ row. row.cargo_delivered_total) rows company.cargo_delivered_total;
}

-- What is known of a company after a reply with these rows of it.
abbrev pub after_rows : ℕ → List CompanyRow → Option Company → Option Company
after_rows key [] before = elim before [
  | none ↦ none
  | some company ↦ some (record company { is_active = false })
]
after_rows key (row ∷ rows) before =
    some (described (row ∷ rows) (elim before [ none ↦ new_company key | some company ↦ company ]))

-- Whether there is such a row.
abbrev is_any : List CompanyRow → Bool
is_any [] = false
is_any (row ∷ rows) = true

merged_row_own :
    (key : ℕ) (row : CompanyRow) (before : Option Company)
    → is_own key row ≡ true
    → merged_row key row (id_of row) before ≡ some (merge_company row (known_or_new key before))
unfolding id_of is_empty_slot
merged_row_own key row before own = ground (arith, nat_eq.same_iff)

merged_row_other :
    (key : ℕ) (row : CompanyRow) (before : Option Company)
    → is_own key row ≡ false
    → merged_row key row (id_of row) before ≡ before
unfolding id_of is_empty_slot
merged_row_other key row before other = ground arith

described-merge_company :
    (row : CompanyRow) (rows : List CompanyRow) (company : Company)
    → described rows (merge_company row company) ≡ described (row ∷ rows) company
unfolding merge_company
described-merge_company row rows company = refl

merge_company-active :
    (row : CompanyRow) (company : Company) → (merge_company row company).is_active ≡ true
unfolding merge_company
merge_company-active row company = refl

-- A company that is active becomes what its rows describe.
merged-described :
    (key : ℕ) (rows : List CompanyRow) (company : Company)
    → company.is_active ≡ true
    → merged key rows (some company) ≡ some (described (own_rows key rows) company)
merged-described key [] company active = rw active refl
merged-described key (row ∷ rows) company active =
    let next = merge_company row company in
    elim (Bool-cases (is_own key row)) [
      | inl own ↦
          ap (merged key rows) (merged_row_own key row (some company) own)
          ∙ merged-described key rows next (merge_company-active row company)
          ∙ rw own (ap some (described-merge_company row (own_rows key rows) company))
      | inr other ↦
          ap (merged key rows) (merged_row_other key row (some company) other)
          ∙ merged-described key rows company active
          ∙ rw other refl
    ]

own_rows_other :
    (key : ℕ) (row : CompanyRow) (rows : List CompanyRow)
    → is_own key row ≡ false
    → own_rows key (row ∷ rows) ≡ own_rows key rows
own_rows_other key row rows other = rw other refl

-- Whatever was known, where the reply has rows of the company.
merged-after_rows :
    (key : ℕ) (rows : List CompanyRow) (before : Option Company)
    → is_any (own_rows key rows) ≡ true
    → merged key rows before ≡ after_rows key (own_rows key rows) before
merged-after_rows key [] before seen = absurd (cc)
merged-after_rows key (row ∷ rows) before seen = elim (Bool-cases (is_own key row)) [
  | inl own ↦
      let known = known_or_new key before in
      ap (merged key rows) (merged_row_own key row before own)
      ∙ merged-described key rows (merge_company row known) (merge_company-active row known)
      ∙ rw own (ap some (described-merge_company row (own_rows key rows) known))
  | inr other ↦
      ap (merged key rows) (merged_row_other key row before other)
      ∙ merged-after_rows key rows before
          (ap is_any (sym (own_rows_other key row rows other)) ∙ seen)
      ∙ rw other refl
]

contains-seen_ids :
    (key : ℕ) (rows : List CompanyRow) → contains key (seen_ids rows) ≡ is_any (own_rows key rows)
unfolding contains seen_ids id_of is_empty_slot
contains-seen_ids key [] = refl
contains-seen_ids key (row ∷ rows) = ground (arith, contains-seen_ids key rows)

inactive-after_rows :
    (key : ℕ) (rows : List CompanyRow) (before : Option Company)
    → is_any rows ≡ false
    → inactive before ≡ after_rows key rows before
inactive-after_rows key [] none h = refl
inactive-after_rows key [] (some company) h = refl
inactive-after_rows key (row ∷ rows) before h = absurd (cc)

-- After get_companies a company of which the reply has rows with a name, or with money that is not -1, is
-- active, its name is made safe with each of them, and every other field has the last value that they
-- give it, under either of its two names where it has two, or else the value that was known, the default
-- for a company that was not known. Any other company that was known is inactive and else as it was, and
-- no other company is made.
pub apply_gs_companies_lem :
    (key : ℕ) (results : List CompanyRow) (companies : Dict ℕ Company)
    → lookup key (apply_gs_companies results companies)
      ≡ after_rows key (own_rows key results) (lookup key companies)
apply_gs_companies_lem key results companies =
    let before = lookup key companies in
    let same = contains-seen_ids key results in
    elim (Bool-cases (is_any (own_rows key results))) [
      | inl seen ↦
          lookup-apply_gs_companies key results companies
          ∙ rw (same ∙ seen) (merged-after_rows key results before seen)
      | inr unseen ↦
          lookup-apply_gs_companies key results companies
          ∙ rw (same ∙ unseen) (inactive-after_rows key (own_rows key results) before unseen)
    ]
