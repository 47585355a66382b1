-- ===== src/Credential/Issue/Expiry.antt =====
-- The block at which a credential expires.
use academic_verification.Prelude.{sym, ℕ, ◌+◌, ◌-◌, ◌*◌, ◌/◌, ◌≤◌, ◌<◌, ◌≡◌, ◌∙◌, arith}
use academic_verification.Credential.Issue.{pos, subtract, expires_at_block}

pos-injective : (a b : ℕ) → pos a ≡ pos b → a ≡ b
pos-injective a b e = cc

at_later :
    (current now date : ℕ)
    → now ≤ date
    → expires_at_block current now date ≡ pos (current + (date - now + 86399999) / 86400000 * 14400)
unfolding expires_at_block
at_later current now date k = ground (arith, k)

at_earlier :
    (current now date block : ℕ)
    → date < now
    → expires_at_block current now date ≡ pos block
    → expires_at_block current now date ≡ pos (current - (now - date) / 86400000 * 14400)
unfolding expires_at_block subtract
at_earlier current now date block k e = ground (arith, k, e)

-- An expiration date that has not passed becomes a block that is not before the current one; at six
-- seconds for each block it is reached no earlier than the date, and less than a day after it. For a
-- date that has passed the block is no later than the current one.
pub expires_at_block_bounds :
    (current now date block : ℕ)
    → expires_at_block current now date ≡ pos block
    → (now ≤ date
        → (current ≤ block)
          × (date ≤ now + (block - current) * 6000)
          × (now + (block - current) * 6000 < date + 86400000))
      × (date < now → block ≤ current)
expires_at_block_bounds current now date block e = (
  λ k. let b = pos-injective _ _ (sym (at_later current now date k) ∙ e) in omega (arith, b, k),
  λ k.
      let b = pos-injective _ _ (sym (at_earlier current now date block k e) ∙ e) in
      omega (arith, b, k),
)
