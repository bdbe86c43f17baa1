-- ===== src/Desk/Tests.antt =====
-- The tools on a desk with one wallet and one signed payload of 1 LYTH.
use mathlib.Core.Path.{◌≡◌, refl}
use lyth_mcp.Prelude.{
  String, true, false, Option, some, none, List, [], ◌∷◌, ok, inl, inr, ◌>>=◌, str_eq,
  if◌then◌else◌,
}
use lyth_mcp.Amount.{Text, codes, decimal_to_units, units_to_decimal}
use lyth_mcp.Files.{stored, missing}
use lyth_mcp.Files.Store.{
  read_records, write_records, add_front, get_record, change_record, remove_records,
}
use lyth_mcp.LowValue.{
  LowValuePolicy, AccountingSummary, units_of, text_of, reset_day_if_needed, locked_units,
  move_between, bucket_text, set_bucket, summarize_accounting, summarize_today, remaining_of,
}
use lyth_mcp.Wallet.{passphrase, WalletRecord, Call, read_wallets, write_wallets}
use lyth_mcp.Wallet.Ops.{move_low_value_accounting, change_policy, change_found, write_policy}
use lyth_mcp.Outbox.{
  OutboxStatus, TxOutboxEntry, OutboxBody, OutboxAttempt, lyth_plaintext, get_outbox_entry,
  update_outbox_status, with_attempt, record_outbox_attempt, forget_outbox_entry,
}
use lyth_mcp.Outbox.Laws.{found_at, HasHash, Attempted, record_outbox_attempt_lem}
use lyth_mcp.Receipts.{OperationReceipt, add_receipt}
use lyth_mcp.Desk.{Desk, Session, on_outbox, on_wallets, on_receipts, file_receipt, move_reserved}
use lyth_mcp.Desk.Release.{
  to_expired, to_failed, kept, not_signed, released, release_reservation, release_found,
  release_entry,
}
use lyth_mcp.Desk.Settlement.{release_reservation-once}
use lyth_mcp.Desk.Confirmation.{tx_status_summary-once}
use lyth_mcp.Desk.Retry.{tx_outbox_retry-unaccounted}
use lyth_mcp.Desk.Submit.{tx_outbox_retry, entry_if_given}
use lyth_mcp.Desk.Status.{
  chain_receipt, chain_tx, derived, is_confirmed, settle_terms, settle_entry, settle_if_given,
  summarize_hash, summarize_found, tx_status_summary,
}
use lyth_mcp.Desk.Kept.{OutboxSound}
use lyth_mcp.Desk.Soundness.{
  Tool, retry_tool, release_tool, status_tool, forget_tool, use_tools, use_tools-Sound,
}

abbrev call : Call
call = record {
  today = "2026-01-05";
  now = "2026-01-05T10:00:00.000Z";
  env_passphrase = none;
  fresh_hot_key = codes "hot";
  fresh_local_key = codes "local";
  mnemonic_salt = [];
  mnemonic_iv = [];
  policy_salt = [];
  policy_iv = [];
}

abbrev session : Session
session = record {
  call = call;
  now = "2026-01-05T10:00:00.000Z";
  is_past = λ t. false;
  network = "testnet";
  chain_id = 1;
  submit_enabled = true;
  endpoint = some "https://rpc";
  fresh_receipt_id = "receipt_1";
  message_of = λ e. "error";
  summary_of = λ a. "1";
}

abbrev policy_with : (reserved submitted confirmed expired : Text) → LowValuePolicy
policy_with reserved submitted confirmed expired = record {
  enabled = true;
  max_amount = codes "2";
  daily_limit = some (codes "5");
  day = some "2026-01-05";
  spent_today = some (codes "1");
  reserved_today = some reserved;
  submitted_today = some submitted;
  confirmed_today = some confirmed;
  failed_today = some (codes "0");
  expired_today = some expired;
  configured_at = "2026-01-05T10:00:00.000Z";
  encrypted_mnemonic = record {
    params = record { n = 32768; r = 8; p = 1; key_len = 32 };
    salt = [];
    iv = [];
    tag = [];
    ciphertext = [];
  };
}

abbrev wallet_with : LowValuePolicy → WalletRecord
wallet_with p = record {
  name = "agent";
  address = codes "0xa";
  public_key = codes "0xc";
  key_protection = some passphrase;
  created_at = "2026-01-01T00:00:00.000Z";
  encrypted_mnemonic = p.encrypted_mnemonic;
  low_value = some p;
  agent = none;
}

abbrev body : OutboxBody
body = record {
  network = "testnet";
  chain_id = 1;
  kind = lyth_plaintext;
  method = "mesh_submitTx";
  payload_hex = "0x01";
  expires_at = none;
  wallet_name = some "agent";
  from = none;
  to = none;
  amount = some (codes "1");
  asset = some "LYTH";
  nonce = none;
  runbook_id = none;
  policy_snapshot = none;
  low_value_reserved = some true;
  note = none;
}

abbrev entry : OutboxStatus → Option String → TxOutboxEntry
entry status hash = record {
  id = "outbox_1";
  status = status;
  body = body;
  payload_hash = "sha256:1";
  created_at = "2026-01-05T10:00:00.000Z";
  updated_at = "2026-01-05T10:00:00.000Z";
  tx_hash = hash;
  attempts = [];
}

abbrev desk : LowValuePolicy → TxOutboxEntry → Desk
desk p e = record {
  world = record { wallets = stored (wallet_with p ∷ []); hot_key = none; local_key = none };
  outbox = stored (e ∷ []);
  receipts = missing;
}

abbrev signed_desk : Desk
signed_desk =
    desk (policy_with (codes "1") (codes "0") (codes "0") (codes "0"))
      (entry lyth_mcp.Outbox.signed none)

abbrev sent_desk : Desk
sent_desk =
    desk (policy_with (codes "0") (codes "1") (codes "0") (codes "0"))
      (entry lyth_mcp.Outbox.submitted (some "0x9"))

abbrev settled_desk : Desk
settled_desk =
    desk
      (record (policy_with (codes "0") (codes "0") (codes "1") (codes "0")) {
        spent_today = some (codes "1");
      })
      (entry lyth_mcp.Outbox.confirmed (some "0x9"))

abbrev confirmed_accounting : AccountingSummary
confirmed_accounting = record {
  day = "2026-01-05";
  reserved = codes "0";
  submitted = codes "0";
  confirmed = codes "1";
  failed = codes "0";
  expired = codes "0";
  total_locked = codes "1";
  remaining_today = some (codes "4");
}

settles :
    tx_status_summary session none (some "outbox_1") (chain_receipt (some "0x1")) chain_tx sent_desk
    ≡ (
      ok (
          derived "0x9"
            (some (entry lyth_mcp.Outbox.submitted (some "0x9")))
            is_confirmed
            (some (some confirmed_accounting))),
      settled_desk,
    )
unfolding tx_status_summary entry_if_given summarize_found summarize_hash settle_if_given
    settle_entry settle_terms on_outbox on_wallets move_reserved move_low_value_accounting
    change_policy change_found write_policy read_wallets write_wallets get_outbox_entry
    update_outbox_status get_record change_record read_records write_records move_between
    bucket_text set_bucket reset_day_if_needed locked_units units_of decimal_to_units text_of
    units_to_decimal summarize_accounting summarize_today remaining_of ◌>>=◌
settles = refl

tx_status_summary-once_example :
    (tx_status_summary session none
      (some "outbox_1")
      (chain_receipt (some "0x1"))
      chain_tx
      settled_desk).1.world
    ≡ settled_desk.world
tx_status_summary-once_example =
    tx_status_summary-once session none "outbox_1" (some "0x1") chain_tx sent_desk "0x9"
      (some (entry lyth_mcp.Outbox.submitted (some "0x9"))) is_confirmed
      (some (some confirmed_accounting)) settled_desk session none (chain_receipt (some "0x1"))
      chain_tx refl settles

abbrev expired_accounting : AccountingSummary
expired_accounting = record {
  day = "2026-01-05";
  reserved = codes "0";
  submitted = codes "0";
  confirmed = codes "0";
  failed = codes "0";
  expired = codes "1";
  total_locked = codes "0";
  remaining_today = some (codes "5");
}

abbrev freed_receipt : OperationReceipt
freed_receipt = record {
  id = "receipt_1";
  created_at = "2026-01-05T10:00:00.000Z";
  updated_at = "2026-01-05T10:00:00.000Z";
  body = record {
    kind = "low_value_reservation_release";
    status = lyth_mcp.Receipts.confirmed;
    network = "testnet";
    chain_id = 1;
    title = "Released low-value reservation outbox_1";
    summary = "agent 1 LYTH moved from reserved to expired";
    wallet_name = some "agent";
    from = none;
    to = none;
    amount = some (codes "1");
    asset = some "LYTH";
    outbox_id = some "outbox_1";
    tx_hash = none;
    payload_hash = some "sha256:1";
    endpoint = none;
    error = none;
  };
}

abbrev released_desk : Desk
released_desk =
    record (desk
      (record (policy_with (codes "0") (codes "0") (codes "0") (codes "1")) {
        spent_today = some (codes "0");
      })
      (entry lyth_mcp.Outbox.expired none)) { receipts = stored (freed_receipt ∷ []) }

releases : release_reservation session "outbox_1" to_expired signed_desk ≡ (
  ok (released (entry lyth_mcp.Outbox.expired none) (some expired_accounting) freed_receipt),
  released_desk,
)
unfolding release_reservation release_found release_entry file_receipt add_receipt add_front
    on_receipts on_outbox on_wallets move_reserved move_low_value_accounting change_policy
    change_found write_policy read_wallets write_wallets get_outbox_entry update_outbox_status
    get_record change_record read_records write_records move_between bucket_text set_bucket
    reset_day_if_needed locked_units units_of decimal_to_units text_of units_to_decimal
    summarize_accounting summarize_today remaining_of ◌>>=◌
releases = refl

release_reservation-once_example :
    release_reservation session "outbox_1" to_failed released_desk
    ≡ (ok (kept (entry lyth_mcp.Outbox.expired none) not_signed), released_desk)
release_reservation-once_example =
    release_reservation-once session "outbox_1" to_expired signed_desk
      (entry lyth_mcp.Outbox.expired none) (some expired_accounting) freed_receipt released_desk
      session to_failed releases

-- A reservation that was released as failed is signed for all the same, and a retry of it is sent, its
-- amount in no bucket that counts.
abbrev failed_desk : Desk
failed_desk =
    desk (policy_with (codes "0") (codes "0") (codes "0") (codes "0"))
      (entry lyth_mcp.Outbox.failed none)

is_found : found_at "outbox_1" failed_desk.outbox ≡ ok (entry lyth_mcp.Outbox.failed none)
unfolding get_outbox_entry get_record read_records ◌>>=◌
is_found = refl

tx_outbox_retry-unaccounted_example :
    (tx_outbox_retry session "outbox_1" false (ok "0x9") failed_desk).1.world ≡ failed_desk.world
tx_outbox_retry-unaccounted_example =
    tx_outbox_retry-unaccounted session "outbox_1" false (ok "0x9") failed_desk
      (entry lyth_mcp.Outbox.failed none) is_found refl refl

abbrev tools : List Tool
tools =
    retry_tool session "outbox_1" false (ok "0x9")
    ∷ status_tool session none (some "outbox_1") (chain_receipt (some "0x0")) chain_tx
    ∷ release_tool session "outbox_1" to_expired
    ∷ forget_tool "outbox_1"
    ∷ []

unsettled : HasHash (entry lyth_mcp.Outbox.signed none)
unsettled (inl e) = absurd (cc)
unsettled (inr e) = absurd (cc)

sound_signed : OutboxSound signed_desk
sound_signed = ((tt, tt), (unsettled, tt))

use_tools-Sound_example : OutboxSound (use_tools tools signed_desk)
use_tools-Sound_example = use_tools-Sound tools signed_desk sound_signed

abbrev attempt : OutboxAttempt
attempt = record {
  at = "2026-01-05T11:00:00.000Z";
  endpoint = "https://rpc";
  method = "mesh_submitTx";
  succeeded = true;
  tx_hash = some "0x9";
  error = none;
}

abbrev attempted : TxOutboxEntry
attempted = record (entry lyth_mcp.Outbox.submitted (some "0x9")) {
  attempts = attempt ∷ [];
  updated_at = "2026-01-05T11:00:00.000Z";
}

recorded :
    record_outbox_attempt "outbox_1" attempt signed_desk.outbox
    ≡ (ok attempted, stored (attempted ∷ []))
unfolding record_outbox_attempt change_record read_records write_records with_attempt ◌>>=◌
recorded = refl

record_outbox_attempt_lem_example :
    (e : TxOutboxEntry) × (found_at "outbox_1" signed_desk.outbox ≡ ok e)
    × Attempted attempt e attempted
    × ((j : String)
        → found_at j (stored (attempted ∷ []))
          ≡ (if str_eq "outbox_1" j then ok attempted else found_at j signed_desk.outbox))
record_outbox_attempt_lem_example =
    record_outbox_attempt_lem "outbox_1" attempt signed_desk.outbox attempted
      (stored (attempted ∷ [])) recorded

forgotten : forget_outbox_entry "outbox_1" signed_desk.outbox ≡ (ok tt, stored [])
unfolding forget_outbox_entry remove_records read_records write_records ◌>>=◌
forgotten = refl
