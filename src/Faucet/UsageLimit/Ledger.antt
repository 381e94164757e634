-- ===== src/Faucet/UsageLimit/Ledger.antt =====
-- The usage limit against a specification: a faucet that remembers the time of the last payment to
-- each receiver.
use concordium_dapp_examples.Common.{
  ℕ, zero, suc, ◌+◌, ◌*◌, ◌≡◌, ◌≢◌, ◌≤◌, refl, sym, ap, ◌∙◌, Bool, true, false, ◌++◌, List, [], ◌∷◌,
  Option, none, some, map, Text, fulfilled, leb, ◌==◌, eq_text, eq_text_iff, is_empty, length, All,
  Bool-cases, inl, inr, arith, if◌then◌else◌,
}
use concordium_dapp_examples.Faucet.UsageLimit.{
  PartialTransaction, Transaction, answered, Explorer, to_partial, latest_transactions_path,
  read_response, get_latest_transactions, is_receiver, is_recent, scan, check_usage_limit,
}

-- A payment of the faucet: its time and its receiver; a ledger has the newest first.
abbrev pub Payment : Type 0
Payment = ℕ × Text

abbrev pub take {ℓ} : {A : Type ℓ} → ℕ → List A → List A
take zero l = []
take (suc n) [] = []
take (suc n) (x ∷ l) = x ∷ take n l

abbrev pub listed : Payment → Transaction
listed (time, receiver) = record {
  block_time = time;
  transaction_hash = [];
  destination = some receiver;
}

-- What the explorer documents: for the page's path it answers with the latest 1000 transactions of the account.
pub record Shows (e : Explorer) (ledger : List Payment) : Type 0 where
  pub has_url : is_empty e.explorer_api_url ≡ false
  pub has_sender : is_empty e.sender_address ≡ false
  pub answers :
      e.fetch (e.explorer_api_url ++ latest_transactions_path e.sender_address 1000)
      ≡ fulfilled (answered (fulfilled (map listed (take 1000 ledger))))

-- The specification: the last payment to each receiver.
abbrev pub Abstract : Type 0
Abstract = Text → Option ℕ

abbrev pub may_pay : ℕ → ℕ → Option ℕ → Bool
may_pay limit now none = true
may_pay limit now (some last) = leb (last + 3600 * limit) now

abbrev pub pay : ℕ → Text → Abstract → Abstract
pay now receiver a other = if eq_text other receiver then some now else a other

-- The abstract view of a ledger.
unfoldable pub last_paid : List Payment → Abstract
last_paid [] other = none
last_paid ((time, receiver) ∷ l) other = pay time receiver (last_paid l) other

-- The times of a ledger, which has the newest payment first, are not after a given one.
abbrev pub UpTo : ℕ → List Payment → Type 0
UpTo now [] = Unit {0}
UpTo now ((time, receiver) ∷ l) = (time ≤ now) × UpTo time l

-- What the page reads from the explorer's answer.
abbrev read : List Payment → List PartialTransaction
read l = map to_partial (map listed l)

scan-false :
    (limit now : ℕ) (receiver : Text) (l : List PartialTransaction)
    → scan limit now receiver false l ≡ false
unfolding scan
scan-false limit now receiver [] = refl
scan-false limit now receiver (t ∷ l) = ground (arith, scan-false limit now receiver l)

module _ (limit now : ℕ) (receiver : Text) where
  -- Old payments do not count.
  scan-old :
      (last : ℕ) (l : List Payment)
      → UpTo last l
      → last + 3600 * limit ≤ now
      → scan limit now receiver true (read l) ≡ true
  unfolding scan to_partial is_receiver is_recent
  scan-old last [] h old = refl
  scan-old last ((time, other) ∷ l) (h, hl) old = ground (arith, scan-old time l hl)

  scan_lem :
      (last : ℕ) (l : List Payment)
      → UpTo last l
      → scan limit now receiver true (read l) ≡ may_pay limit now (last_paid l receiver)
  unfolding scan to_partial is_receiver is_recent last_paid
  scan_lem last [] h = refl
  scan_lem last ((time, other) ∷ l) (h, hl) =
      ground (arith, scan_lem time l hl, scan-old time l hl, scan-false limit now receiver (read l))

  all_old :
      (last : ℕ) (l : List Payment)
      → UpTo last l
      → last + 3600 * limit ≤ now
      → All (λ p. p.1 ≡ receiver → p.0 + 3600 * limit ≤ now) l
  all_old last [] h old = tt
  all_old last ((time, other) ∷ l) (h, hl) old =
      ((λ _. omega arith), all_old time l hl (omega arith))

  -- If the receiver may be paid, every payment to it is old.
  pub may_pay_sound :
      (last : ℕ) (l : List Payment)
      → UpTo last l
      → may_pay limit now (last_paid l receiver) ≡ true
      → All (λ p. p.1 ≡ receiver → p.0 + 3600 * limit ≤ now) l
  unfolding last_paid
  may_pay_sound last [] h allowed = tt
  may_pay_sound last ((time, other) ∷ l) (h, hl) allowed =
      elim (Bool-cases (eq_text receiver other)) [
        | inl e ↦
            let old : time + 3600 * limit ≤ now = ground (arith, rw e at allowed) in
            ((λ _. old), all_old time l hl old)
        | inr e ↦ (
          (λ same. absurd (cc ((eq_text_iff receiver other).1 (sym same)))),
          may_pay_sound time l hl (rw e at allowed),
        )
      ]

take-length : {A : Type 0} (n : ℕ) (l : List A) → length l ≤ n → take n l ≡ l
take-length zero [] h = refl
take-length zero (x ∷ l) h = absurd (omega arith)
take-length (suc n) [] h = refl
take-length (suc n) (x ∷ l) h = ap (λ r. x ∷ r) (take-length n l (omega arith))

-- The check asks the explorer once and judges the payments that it shows.
check_usage_limit-Shows :
    (e : Explorer) (ledger : List Payment) (limit now : ℕ) (receiver : Text)
    → Shows e ledger
    → (limit == 0) ≡ false
    → check_usage_limit e limit now receiver
      ≡ fulfilled (scan limit now receiver true (read (take 1000 ledger)))
unfolding check_usage_limit get_latest_transactions read_response
check_usage_limit-Shows e ledger limit now receiver h pos =
    rw pos (rw h.has_sender (rw h.has_url (rw h.answers refl)))

-- With at most 1000 payments the check decides as the specification.
pub check_usage_limit-may_pay :
    (e : Explorer) (ledger : List Payment) (limit now : ℕ) (receiver : Text)
    → Shows e ledger
    → (limit == 0) ≡ false
    → length ledger ≤ 1000
    → UpTo now ledger
    → check_usage_limit e limit now receiver
      ≡ fulfilled (may_pay limit now (last_paid ledger receiver))
check_usage_limit-may_pay e ledger limit now receiver h pos few past =
    check_usage_limit-Shows e ledger limit now receiver h pos
    ∙ ap (λ l. fulfilled (scan limit now receiver true (read l))) (take-length 1000 ledger few)
    ∙ ap fulfilled (scan_lem limit now receiver now ledger past)

scan-others :
    (limit now : ℕ) (receiver : Text) (n : ℕ) (l rest : List Payment)
    → All (λ p. p.1 ≢ receiver) l
    → length l ≡ n
    → scan limit now receiver true (read (take n (l ++ rest))) ≡ true
unfolding scan to_partial is_receiver
scan-others limit now receiver zero [] rest h e = refl
scan-others limit now receiver zero (p ∷ l) rest h e = absurd (omega arith)
scan-others limit now receiver (suc n) [] rest h e = absurd (omega arith)
scan-others limit now receiver (suc n) ((time, other) ∷ l) rest (h, hl) e =
    let differs : eq_text receiver other ≡ false = ground (arith, eq_text_iff receiver other, h) in
    rw differs (scan-others limit now receiver n l rest hl (omega arith))

-- Behind exactly 1000 later payments to others, a payment is not seen by the usage check, however
-- recent it is, and its receiver is allowed again.
pub check_usage_limit-hidden :
    (e : Explorer) (later earlier : List Payment) (limit now : ℕ) (receiver : Text)
    → Shows e (later ++ earlier)
    → (limit == 0) ≡ false
    → length later ≡ 1000
    → All (λ p. p.1 ≢ receiver) later
    → check_usage_limit e limit now receiver ≡ fulfilled true
check_usage_limit-hidden e later earlier limit now receiver h pos many others =
    check_usage_limit-Shows e (later ++ earlier) limit now receiver h pos
    ∙ ap fulfilled (scan-others limit now receiver 1000 later earlier others many)
