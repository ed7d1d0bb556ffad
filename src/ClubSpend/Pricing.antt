-- ===== src/ClubSpend/Pricing.antt =====
-- src/club-spend.ts and the prices of src/ai.ts: what a call is estimated to cost, and what it costs.
-- The prompt and the rendered artifact, which src/gate.ts makes, are texts of UTF-16 code units.
use clawclub_server.Common.{
  ℕ, zero, suc, ◌+◌, ◌-◌, ◌*◌, ◌/◌, ◌≤◌, ◌<◌, List, ◌∷◌, ◌++◌, arith, ◌==◌, if◌then◌else◌, length,
}
use native.Mathlib.Nat.{div-lt_iff_lt-mul}

abbrev pub micro_cents_per_cent : ℕ
micro_cents_per_cent = 1_000_000

abbrev estimated_chars_per_token : ℕ
estimated_chars_per_token = 4

abbrev reservation_margin_bps : ℕ
reservation_margin_bps = 1500

abbrev openai_input_micro_cents_per_token : ℕ
openai_input_micro_cents_per_token = 20

abbrev openai_output_micro_cents_per_token : ℕ
openai_output_micro_cents_per_token = 125

abbrev embedding_input_micro_cents_per_token : ℕ
embedding_input_micro_cents_per_token = 2

pub data UsageKind : Type 0 where
  gate embedding : UsageKind

pub record SpendEstimate : Type 0 where
  pub usage_kind : UsageKind
  pub reserved_micro_cents : ℕ
  pub reserved_input_tokens_estimate : ℕ
  pub reserved_output_tokens : ℕ

-- Math.ceil(text.length / 4)
unfoldable pub estimate_tokens_from_text : List ℕ → ℕ
estimate_tokens_from_text text =
    (length text + (estimated_chars_per_token - 1)) / estimated_chars_per_token

unfoldable pub ceil_divide : ℕ → ℕ → ℕ
ceil_divide value divisor = if value == 0 then 0 else (value - 1) / divisor + 1

unfoldable pub apply_reservation_margin : ℕ → ℕ
unfolding ceil_divide
apply_reservation_margin micro_cents =
    ceil_divide (micro_cents * (10_000 + reservation_margin_bps)) 10_000

unfoldable pub price_gate_micro_cents : ℕ → ℕ → ℕ
price_gate_micro_cents input_tokens output_tokens =
    input_tokens * openai_input_micro_cents_per_token
    + output_tokens * openai_output_micro_cents_per_token

unfoldable pub price_embedding_micro_cents : ℕ → ℕ
price_embedding_micro_cents input_tokens = input_tokens * embedding_input_micro_cents_per_token

abbrev newline : ℕ
newline = 10

unfoldable pub estimate_gate_spend : (prompt_text user_text : List ℕ) → ℕ → SpendEstimate
unfolding apply_reservation_margin price_gate_micro_cents
estimate_gate_spend prompt_text user_text max_output_tokens =
    let tokens = estimate_tokens_from_text (prompt_text ++ newline ∷ user_text) in
    record {
      usage_kind = gate;
      reserved_micro_cents =
          apply_reservation_margin (price_gate_micro_cents tokens max_output_tokens);
      reserved_input_tokens_estimate = tokens;
      reserved_output_tokens = max_output_tokens;
    }

unfoldable pub estimate_embedding_spend : List ℕ → SpendEstimate
unfolding apply_reservation_margin price_embedding_micro_cents
estimate_embedding_spend source_text =
    let tokens = estimate_tokens_from_text source_text in
    record {
      usage_kind = embedding;
      reserved_micro_cents = apply_reservation_margin (price_embedding_micro_cents tokens);
      reserved_input_tokens_estimate = tokens;
      reserved_output_tokens = 0;
    }

-- `Math.max(0, tokens)` is the number itself.
unfoldable pub compute_gate_actual_micro_cents : (prompt_tokens completion_tokens : ℕ) → ℕ
unfolding price_gate_micro_cents
compute_gate_actual_micro_cents prompt_tokens completion_tokens =
    price_gate_micro_cents prompt_tokens completion_tokens

unfoldable pub compute_embedding_actual_micro_cents : ℕ → ℕ
unfolding price_embedding_micro_cents
compute_embedding_actual_micro_cents tokens = price_embedding_micro_cents tokens

ceil_divide-le :
    (value divisor n : ℕ) → 0 < divisor → value ≤ n * divisor → ceil_divide value divisor ≤ n
unfolding ceil_divide
ceil_divide-le zero divisor n h k = omega arith
ceil_divide-le (suc v) divisor n h k =
    let below : (suc v - 1) / divisor < n = (div-lt_iff_lt-mul h).1 (omega arith) in
    ground (arith, below)

-- The quotient, rounded up: the least number whose product is not below the value.
ceil_divide_least :
    (value divisor : ℕ)
    → 0 < divisor
    → (value ≤ ceil_divide value divisor * divisor)
      × ((n : ℕ) → value ≤ n * divisor → ceil_divide value divisor ≤ n)
unfolding ceil_divide
ceil_divide_least value divisor h = (grind arith, λ n k. ceil_divide-le value divisor n h k)

-- A gate call costs no more than was reserved for it if it returns at most `max_output_tokens` tokens
-- and its prompt has at most 15 % more tokens than the estimate from its length.
pub compute_gate_actual-le-reserved :
    (prompt_text user_text : List ℕ) (max_output_tokens prompt_tokens completion_tokens : ℕ)
    → let e = estimate_gate_spend prompt_text user_text max_output_tokens in
      completion_tokens ≤ max_output_tokens
      → 100 * prompt_tokens ≤ 115 * e.reserved_input_tokens_estimate
      → compute_gate_actual_micro_cents prompt_tokens completion_tokens ≤ e.reserved_micro_cents
unfolding estimate_gate_spend compute_gate_actual_micro_cents
compute_gate_actual-le-reserved prompt_text user_text m p c h k = ground arith

-- An embedding costs no more than was reserved for it if its text has at most 15 % more tokens than
-- the estimate from its length.
compute_embedding_actual-le-reserved :
    (source_text : List ℕ) (tokens : ℕ)
    → let e = estimate_embedding_spend source_text in
      100 * tokens ≤ 115 * e.reserved_input_tokens_estimate
      → compute_embedding_actual_micro_cents tokens ≤ e.reserved_micro_cents
unfolding estimate_embedding_spend compute_embedding_actual_micro_cents
compute_embedding_actual-le-reserved source_text tokens h = ground arith
