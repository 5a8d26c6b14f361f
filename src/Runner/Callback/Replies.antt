-- ===== src/Runner/Callback/Replies.antt =====
-- About the replies of the callback.
use Prim.Native.Nat.{bit_or, bit_xor}
use research_crafters.Prelude.{
  List, Option, String, [], ap, arith, false, length, nat_eq, none, refl, some, string_eq, true, ℕ,
  ◌==◌, ◌↔◌, ◌∷◌, ◌≡◌, ◌≢◌,
}
use research_crafters.Prelude.Bits.{bit_or_iff, bit_xor_iff}
use research_crafters.Runner.Callback.{
  CallbackBody, CallbackEnv, CallbackRequest, RunDb, RunRow, accepted, authorize, callback,
  handle_body, mismatch, persist, unauthorized,
}

mismatch_iff :
    (acc : ℕ) (got want : List ℕ)
    → length got ≡ length want
    → (mismatch acc got want ≡ 0) ↔ ((acc ≡ 0) × (got ≡ want))
unfolding mismatch
mismatch_iff acc [] [] same = (λ h. (h, refl), λ (h, _). h)
mismatch_iff acc [] (b ∷ want) same = (λ h. ground arith, λ h. ground arith)
mismatch_iff acc (a ∷ got) [] same = (λ h. ground arith, λ h. ground arith)
mismatch_iff acc (a ∷ got) (b ∷ want) same =
    let rest = mismatch_iff (bit_or acc (bit_xor a b)) got want (omega (arith, same)) in
    (
      λ h. ground (arith, rest, bit_or_iff acc (bit_xor a b), bit_xor_iff a b),
      λ (p, q). ground (arith, rest, bit_or_iff acc (bit_xor a b), bit_xor_iff a b),
    )

positive_length : (xs : List ℕ) → xs ≢ [] → (length xs == 0) ≡ false
positive_length [] h = absurd (h refl)
positive_length (x ∷ xs) h = ground arith

authorize_iff :
    (env : CallbackEnv) (secret : Option (List ℕ))
    → (authorize env secret ≡ true)
      ↔ ((secret ≡ some env.expected_secret) × (env.expected_secret ≢ []))
unfolding authorize
authorize_iff env none = (λ h. ground arith, λ h. ground arith)
authorize_iff env (some got) = (
  λ h.
      let same : length got ≡ length env.expected_secret = ground arith in
      let equal : got ≡ env.expected_secret =
        ((mismatch_iff 0 got env.expected_secret same).0 (ground arith)).1 in
      (ap some equal, λ e. ground (arith, ap length e, same)),
  λ (e, named).
      let equal : got ≡ env.expected_secret = ground arith in
      ground (
        arith,
        ap length equal,
        positive_length env.expected_secret named,
        (mismatch_iff 0 got env.expected_secret (ap length equal)).1 (refl, equal),
      ),
)

module _ {V : Type 0} where
  persist-authorized :
      (env : CallbackEnv) (id : String) (b : CallbackBody V) (row : RunRow V) (db : RunDb V)
      → (persist env id b row db).0 ≢ unauthorized
  unfolding persist
  persist-authorized env id b row db h = ground arith

  -- All or nothing: a callback whose reply is not `accepted` leaves the runs and the attempts as they
  -- are and tracks nothing.
  pub callback-rejected :
      (env : CallbackEnv) (r : CallbackRequest V) (db : RunDb V)
      → (callback env r db).0 ≢ accepted
      → callback env r db ≡ ((callback env r db).0, db, [])
  unfolding callback handle_body persist
  callback-rejected env r db h = ground arith

  callback-let_in :
      (env : CallbackEnv) (r : CallbackRequest V) (db : RunDb V)
      → ((callback env r db).0 ≢ unauthorized) ↔ (authorize env r.secret ≡ true)
  unfolding callback handle_body persist
  callback-let_in env r db = (λ h. ground arith, λ h e. ground arith)

  -- Only a caller who presents the expected secret, code by code, and a secret that is not empty, is
  -- let in: the reply to any other is `unauthorized`, and the reply to it is not.
  pub callback-authorized :
      (env : CallbackEnv) (r : CallbackRequest V) (db : RunDb V)
      → ((callback env r db).0 ≢ unauthorized)
        ↔ ((r.secret ≡ some env.expected_secret) × (env.expected_secret ≢ []))
  callback-authorized env r db =
      let (to, from) = callback-let_in env r db in
      let (to', from') = authorize_iff env r.secret in (λ h. to' (to h), λ h. from (from' h))
