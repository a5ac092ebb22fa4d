-- ===== src/Access/Totp/Grows.antt =====
-- What no call takes back: the counter of a user's last password, and the used partial tokens.
use ghg_tool.Prelude.{
  ℕ, ◌≤◌, ◌<◌, ◌≡◌, refl, sym, ap, ◌∙◌, Bool, true, false, String, Option, none, some, List, [],
  ◌∷◌, leb, str_eq, eq_iff, arith, Bool-cases, inl, inr, if◌then◌else◌,
}
use ghg_tool.Access.Totp.{TotpRow, fetch_totp_row, update_totp_row, set_counter}

abbrev pub counts : (step : ℕ) → Option TotpRow → Bool
counts step none = false
counts step (some row) = leb step row.totp_last_counter

-- The user is there, and the counter is at the step or above it.
abbrev pub is_spent : (step : ℕ) (id : String) → List TotpRow → Bool
is_spent step id rows = counts step (fetch_totp_row id rows)

abbrev pub UsersGrow : List TotpRow → List TotpRow → Type 0
UsersGrow us vs = (step : ℕ) (id : String) → is_spent step id us ≡ true → is_spent step id vs ≡ true

abbrev pub changed : String → (TotpRow → TotpRow) → Option TotpRow → Option TotpRow
changed id f none = none
changed id f (some row) = some (if str_eq row.id id then f row else row)

pub fetch-update :
    (id key : String) (f : TotpRow → TotpRow)
    → ((row : TotpRow) → (f row).id ≡ row.id)
    → (rows : List TotpRow)
    → fetch_totp_row id (update_totp_row key f rows) ≡ changed key f (fetch_totp_row id rows)
unfolding fetch_totp_row update_totp_row
fetch-update id key f kept [] = refl
fetch-update id key f kept (row ∷ rows) = ground (arith, kept row, fetch-update id key f kept rows)

pub fetch-id :
    (id : String) (rows : List TotpRow) (row : TotpRow)
    → fetch_totp_row id rows ≡ some row
    → str_eq row.id id ≡ true
unfolding fetch_totp_row
fetch-id id [] row h = ground arith
fetch-id id (first ∷ rows) row h = ground (arith, fetch-id id rows row)

module _ (key : String) (f : TotpRow → TotpRow) where
  counts-changed :
      (step : ℕ) (found : Option TotpRow)
      → ((row : TotpRow)
          → found ≡ some row
          → str_eq row.id key ≡ true
          → row.totp_last_counter ≤ (f row).totp_last_counter)
      → counts step found ≡ true
      → counts step (changed key f found) ≡ true
  counts-changed step none higher h = h
  counts-changed step (some row) higher h = elim (Bool-cases (str_eq row.id key)) [
    | inl own ↦ rw own (ground (arith, higher row refl own))
    | inr other ↦ rw other h
  ]

  pub UsersGrow-update :
      (rows : List TotpRow)
      → ((row : TotpRow) → (f row).id ≡ row.id)
      → ((row : TotpRow)
          → fetch_totp_row key rows ≡ some row
          → row.totp_last_counter ≤ (f row).totp_last_counter)
      → UsersGrow rows (update_totp_row key f rows)
  UsersGrow-update rows kept higher step id h = rw (fetch-update id key f kept rows) (
      counts-changed step (fetch_totp_row id rows)
        (λ row found own. higher row (
          ap (λ i. fetch_totp_row i rows)
            (sym ((eq_iff row.id key).0 own) ∙ (eq_iff row.id id).0 (fetch-id id rows row found))
          ∙ found))
        h)

pub UsersGrow-set_counter :
    (key : String) (counter : ℕ) (rows : List TotpRow) (row : TotpRow)
    → fetch_totp_row key rows ≡ some row
    → row.totp_last_counter < counter
    → UsersGrow rows (update_totp_row key (set_counter counter) rows)
UsersGrow-set_counter key counter rows row found below =
    UsersGrow-update key (set_counter counter) rows (λ r. refl)
      (λ r same. ground (arith, sym found ∙ same))

pub is_spent-set_counter :
    (key : String) (counter : ℕ) (rows : List TotpRow) (row : TotpRow)
    → fetch_totp_row key rows ≡ some row
    → is_spent counter key (update_totp_row key (set_counter counter) rows) ≡ true
is_spent-set_counter key counter rows row found =
    rw
      (
        fetch-update key key (set_counter counter) (λ r. refl) rows,
        found,
        fetch-id key rows row found,
      )
      (ground arith)
