-- ===== src/Preflight.antt =====
-- The checks before a transfer: `scoreEndpoint` and `preflightTransfer` of src/index.ts. What the
-- endpoint replied, `CHAIN_ID` and the wallets that were found are arguments. A violation or a
-- warning is a constructor in place of its text, and the report of the checks is left out.
pub mod Inputs
pub mod Covered
pub mod Allowed
mod Tests
use lyth_mcp.Prelude.{
  ℕ, ◌+◌, ◌-◌, ◌*◌, min, max, String, Bool, true, false, not, ◌&&◌, ◌||◌, Option, none, some, List,
  [], ◌∷◌, ◌++◌, ltb, leb, ◌==◌, if◌then◌else◌, or_else, str_eq, find, length, Result, ok, err,
  then_result, of_option,
}
use lyth_mcp.Amount.{Text}
use lyth_mcp.Quantity.{is_hex_digit, parse_quantity}
use lyth_mcp.Files.Store.{given}
use lyth_mcp.LowValue.{PolicyError, units_of, truthy}
use lyth_mcp.Wallet.{AgentMetadata, WalletError}
use lyth_mcp.Wallet.Summary.{LowValueSummary, WalletSummary}

-- How a call of the endpoint ends for the score; a method may be switched off.
pub data Reply : Type 0 where
  replied switched_off no_reply : Reply

pub record Probe : Type 0 where
  pub works : Bool
  pub latency_ms : ℕ
  pub gas_price : Reply
  pub mempool : Reply
  pub sync : Reply

pub record Health : Type 0 where
  pub works : Bool
  pub score : ℕ
  pub write_ready : Bool
  pub quarantined : Bool

abbrev pub has_replied : Reply → Bool
has_replied replied = true
has_replied switched_off = false
has_replied no_reply = false

abbrev pub is_fault : Reply → Bool
is_fault replied = false
is_fault switched_off = false
is_fault no_reply = true

abbrev pub less_if : Bool → ℕ → ℕ → ℕ
less_if b n score = if b then score - n else score

-- The source's score may fall below 0 on the way and is cut off at 0 at the end. The calls are
-- refused if the probe failed.
unfoldable pub score_of : Probe → ℕ
score_of p =
    let start = if p.works then 100 else 0 in
    let timely = less_if (ltb 2000 p.latency_ms) 10 start in
    let priced = less_if (not (p.works && has_replied p.gas_price)) 10 timely in
    let pooled = less_if (not p.works || is_fault p.mempool) 25 priced in
    max 0 (min 100 (less_if (not (p.works && has_replied p.sync)) 15 pooled))

unfoldable pub score_endpoint : Probe → Health
score_endpoint p = record {
  works = p.works;
  score = score_of p;
  write_ready = p.works && leb 70 (score_of p);
  quarantined = not p.works || ltb (score_of p) 50;
}

abbrev pub all_hex_digits : Text → Bool
all_hex_digits [] = true
all_hex_digits (c ∷ t) = is_hex_digit c && all_hex_digits t

-- `/^0x[0-9a-fA-F]{40}$/`
unfoldable pub is_wire_address : Text → Bool
is_wire_address (z ∷ x ∷ body) = z == b'0' && x == b'x' && length body == 40 && all_hex_digits body
is_wire_address _ = false

pub data Violation : Type 0 where
  unhealthy not_write_ready bad_recipient wrong_chain chain_unknown : Violation
  low_balance balance_unknown low_nonce nonce_unknown : Violation
  no_wallet agent_paused agent_expired over_cap over_remaining : Violation

pub data Warning : Type 0 where
  high_nonce over_max_balance low_value_off : Warning

pub data PreflightError : Type 0 where
  bad_quantity : PreflightError
  of_policy : PolicyError → PreflightError
  of_wallets : WalletError → PreflightError

pub record PreflightReport : Type 0 where
  pub violations : List Violation
  pub warnings : List Warning

pub record PreflightArgs : Type 0 where
  pub wallet_name : String
  pub to : Text
  pub amount_units : ℕ
  pub gas_limit : ℕ
  pub max_fee_per_gas : ℕ
  pub nonce : Option ℕ
  pub sign : Bool
  pub allow_low_value_signing : Bool
  pub allow_paused_agent : Bool
  pub passphrase : Option String

-- The answers of the endpoint, nothing where the call was refused.
pub record Answers : Type 0 where
  pub chain_id : Option Text
  pub balance : Option Text
  pub nonce : Option Text

abbrev pub Checked : Type 0
Checked = Result PreflightError PreflightReport

abbrev pub clean : PreflightReport
clean = record { violations = []; warnings = [] }

abbrev pub violates : Bool → Violation → PreflightReport
violates b v = record { violations = if b then v ∷ [] else []; warnings = [] }

abbrev pub warns : Bool → Warning → PreflightReport
warns b w = record { violations = []; warnings = if b then w ∷ [] else [] }

abbrev pub both : PreflightReport → PreflightReport → PreflightReport
both p q = record { violations = p.violations ++ q.violations; warnings = p.warnings ++ q.warnings }

-- One check after the other.
abbrev pub and_then : Checked → Checked → Checked
and_then r s = then_result r λ p. then_result s λ q. ok (both p q)

abbrev pub parsed_quantity : Text → Result PreflightError ℕ
parsed_quantity text = of_option bad_quantity (parse_quantity text)

abbrev pub amount_of : Text → Result PreflightError ℕ
amount_of text = elim (units_of text) [ ok n ↦ ok n | err e ↦ err (of_policy e) ]

unfoldable pub check_endpoint : PreflightArgs → Health → PreflightReport
check_endpoint a h = both (violates (not h.works) unhealthy) (
    both (violates (a.sign && not h.write_ready) not_write_ready)
      (violates (not (is_wire_address a.to)) bad_recipient))

unfoldable pub check_chain : ℕ → Option Text → Checked
check_chain chain none = ok (violates true chain_unknown)
check_chain chain (some text) =
    then_result (parsed_quantity text) λ live. ok (violates (not (live == chain)) wrong_chain)

-- The amount and the ceiling of the fee.
abbrev pub required_balance : PreflightArgs → ℕ
required_balance a = a.amount_units + a.gas_limit * a.max_fee_per_gas

unfoldable pub check_balance : PreflightArgs → Option Text → Checked
check_balance a none = ok (violates true balance_unknown)
check_balance a (some text) =
    then_result (parsed_quantity text)
      λ balance. ok (violates (ltb balance (required_balance a)) low_balance)

abbrev pub compare_nonce : Option ℕ → ℕ → PreflightReport
compare_nonce none live = clean
compare_nonce (some nonce) live =
    both (violates (ltb nonce live) low_nonce) (warns (ltb live nonce) high_nonce)

unfoldable pub check_nonce : PreflightArgs → Option Text → Checked
check_nonce a none = ok (violates true nonce_unknown)
check_nonce a (some text) =
    then_result (parsed_quantity text) λ live. ok (compare_nonce a.nonce live)

-- A bound that may be missing.
abbrev pub over_bound : Option Text → ℕ → Violation → Checked
over_bound none amount v = ok clean
over_bound (some bound) amount v =
    then_result (amount_of bound) λ most. ok (violates (ltb most amount) v)

abbrev pub check_low_value : ℕ → Option LowValueSummary → Checked
check_low_value amount none = ok (warns true low_value_off)
check_low_value amount (some low) =
    if low.enabled
    then and_then (over_bound (truthy (some low.max_amount)) amount over_cap)
        (over_bound (truthy low.accounting.remaining_today) amount over_remaining)
    else ok (warns true low_value_off)

abbrev pub balance_over : Option Text → Option Text → Checked
balance_over none balance = ok clean
balance_over (some most) none = ok clean
balance_over (some most) (some text) =
    then_result (parsed_quantity text) λ balance.
      then_result (amount_of most) λ bound. ok (warns (ltb bound balance) over_max_balance)

abbrev pub expires_before : (String → Bool) → Option String → Bool
expires_before past none = false
expires_before past (some at) = past at

-- `past`: `Date.parse(expiresAt) < Date.now()`.
unfoldable pub check_agent :
    (String → Bool) → PreflightArgs → Option Text → Option AgentMetadata → Checked
check_agent past a balance none = ok clean
check_agent past a balance (some agent) =
    and_then
      (ok (
        both (violates (or_else agent.paused false && not a.allow_paused_agent) agent_paused)
          (violates (expires_before past (given agent.expires_at)) agent_expired)))
      (balance_over (truthy agent.max_balance) balance)

abbrev pub uses_low_value : PreflightArgs → Bool
uses_low_value a = a.sign && is_none (given a.passphrase) && a.allow_low_value_signing
  where
    is_none : Option String → Bool
    is_none none = true
    is_none (some s) = false

unfoldable pub check_wallet :
    (String → Bool) → PreflightArgs → Option Text → Option WalletSummary → Checked
check_wallet past a balance none = ok (violates true no_wallet)
check_wallet past a balance (some w) =
    and_then (check_agent past a balance w.agent)
      (if uses_low_value a then check_low_value a.amount_units w.low_value else ok clean)

abbrev pub found_wallet :
    String → Result WalletError (List WalletSummary) → Result PreflightError (Option WalletSummary)
found_wallet name (err e) = err (of_wallets e)
found_wallet name (ok ws) = ok (find (λ w. str_eq w.name name) ws)

unfoldable pub preflight_transfer :
    ℕ
    → (String → Bool)
    → PreflightArgs
    → Health
    → Answers
    → Result WalletError (List WalletSummary)
    → Checked
preflight_transfer chain past a h answers wallets = and_then (ok (check_endpoint a h)) (
    and_then (check_chain chain answers.chain_id) (
      and_then (check_balance a answers.balance) (
        and_then (check_nonce a answers.nonce) (
          then_result (found_wallet a.wallet_name wallets)
            λ w. check_wallet past a answers.balance w))))
