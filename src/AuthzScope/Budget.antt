-- ===== src/AuthzScope/Budget.antt =====
-- The header budgets of crates/sdkwork-web-core/src/authz_scope.rs: the size of one rendered token,
-- and of the two that a request carries. `usize` holds any count of bytes that a process can have.
use sdkwork_web_framework.Base.{
  ℕ, ◌+◌, ◌-◌, ◌*◌, ◌/◌, true, ◌++◌, if◌then◌else◌, ltb, Result, ok, err, is_ok, ◌≡◌, arith,
}
use sdkwork_web_framework.Base.Text.{lit, decimal}
use sdkwork_web_framework.Errors.{WebFrameworkError, internal_server_error}

abbrev pub single_token_header_budget_bytes : ℕ
single_token_header_budget_bytes = 8 * 1024

abbrev pub dual_token_header_block_budget_bytes : ℕ
dual_token_header_block_budget_bytes = 16 * 1024

abbrev pub entrypoint_header_reserve_bytes : ℕ
entrypoint_header_reserve_bytes = 4 * 1024

abbrev pub dual_token_header_name_bytes : ℕ
dual_token_header_name_bytes = 64

abbrev pub max_rendered_token_bytes : ℕ
max_rendered_token_bytes =
    (dual_token_header_block_budget_bytes - entrypoint_header_reserve_bytes
      - dual_token_header_name_bytes)
    / 2

unfoldable pub validate_rendered_token_bytes : ℕ → Result (Unit {0}) WebFrameworkError
validate_rendered_token_bytes rendered_len =
    if ltb max_rendered_token_bytes rendered_len
    then err (
        internal_server_error (
          lit "rendered token is "
          ++ decimal rendered_len
          ++ lit " bytes, above the "
          ++ decimal max_rendered_token_bytes
          ++ lit "-byte entrypoint header budget ("
          ++ decimal dual_token_header_block_budget_bytes
          ++ lit "-byte whole-block budget minus "
          ++ decimal entrypoint_header_reserve_bytes
          ++ lit "-byte reserve, two tokens); move variable-length authorization content to "
          ++ lit "server-side scope resolution"))
    else ok tt

unfoldable pub validate_dual_token_header_budget : ℕ → ℕ → ℕ → Result (Unit {0}) WebFrameworkError
validate_dual_token_header_budget auth_token_bytes access_token_bytes header_name_bytes =
    let total = auth_token_bytes + access_token_bytes + header_name_bytes in
    if ltb dual_token_header_block_budget_bytes (total + entrypoint_header_reserve_bytes)
    then err (
        internal_server_error (
          lit "dual-token header footprint is "
          ++ decimal total
          ++ lit " bytes; with a "
          ++ decimal entrypoint_header_reserve_bytes
          ++ lit "-byte reserve it overflows the "
          ++ decimal dual_token_header_block_budget_bytes
          ++ lit "-byte entrypoint header block budget"))
    else ok tt

-- Two tokens that each pass the check of a rendered token pass the check of the pair, with the
-- names of the two headers.
pub rendered_tokens_fit :
    (a b : ℕ)
    → is_ok (validate_rendered_token_bytes a) ≡ true
    → is_ok (validate_rendered_token_bytes b) ≡ true
    → is_ok (validate_dual_token_header_budget a b dual_token_header_name_bytes) ≡ true
unfolding validate_rendered_token_bytes validate_dual_token_header_budget
rendered_tokens_fit a b ha hb = ground (arith, ha, hb)

-- The ceiling on one token is exact: a pair of tokens of one length passes the check of the pair
-- exactly if that length passes the check of one token.
pub rendered_token_ceiling :
    (n : ℕ)
    → is_ok (validate_dual_token_header_budget n n dual_token_header_name_bytes)
      ≡ is_ok (validate_rendered_token_bytes n)
unfolding validate_rendered_token_bytes validate_dual_token_header_budget
rendered_token_ceiling n = ground arith
