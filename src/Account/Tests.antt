-- ===== src/Account/Tests.antt =====
-- An account with a submission that was run, beside another learner's.
use research_crafters.Prelude.{String, [], arith, eq_iff, none, refl, some, ℕ, ◌∷◌, ◌≡◌, ◌≢◌}
use research_crafters.Prelude.Dict.{lookup}
use research_crafters.Account.{
  AccountDb, Row, Texts, UserRow, anonymized, delete_account, delete_in, erased, export_account,
  find_in, ids_of, json,
}
use research_crafters.Account.Erasure.{
  Erased, delete_account-Erased, delete_account-export, empty_export,
}
use research_crafters.Account.Others.{Keyed, delete_account-others}

abbrev plain : String → String → Row ℕ
plain id key = record { id = id; key = some key; content = ("size", json 7) ∷ [] }

abbrev ada : UserRow
ada = record {
  email = "ada@example.org";
  github_handle = some "ada";
  display_name = none;
  name = some "Ada";
  image = none;
  email_verified = some 3;
  created_at = 1;
}

abbrev two_accounts : AccountDb ℕ
two_accounts = record {
  users = ("u1", ada) ∷ ("u2", record ada { email = "bob@example.org" }) ∷ [];
  sessions = plain "x1" "u1" ∷ [];
  accounts = [];
  device_flows = [];
  tokens = plain "t1" "ada@example.org" ∷ plain "t2" "bob@example.org" ∷ [];
  runs = plain "r1" "s1" ∷ plain "r2" "s2" ∷ [];
  grades = plain "g1" "a1" ∷ [];
  submissions = plain "s1" "a1" ∷ plain "s2" "a2" ∷ [];
  attempts = plain "a1" "e1" ∷ plain "a2" "e2" ∷ [];
  messages = [];
  threads = [];
  traversals = [];
  share_cards = [];
  enrollments = plain "e1" "u1" ∷ plain "e2" "u2" ∷ [];
  entitlements = [];
  memberships = [];
  events = plain "v1" "u1" ∷ [];
  reviews = [];
}

abbrev some_texts : Texts
some_texts = record { iso = λ t. "1970"; digits = λ n. "0" }

two_accounts-Keyed : Keyed two_accounts
two_accounts-Keyed = ((refl, (refl, tt)), (refl, (refl, tt)), (refl, (refl, tt)), tt)

found : lookup two_accounts.users "u1" ≡ some ada
unfolding lookup
found = refl

ne : ◌≢◌ {A = String} "u2" "u1"
ne h = ground (arith, eq_iff "u2" "u1", h)

-- The other learner's run is all that is left of the runs.
runs_left : ids_of (delete_account "u1" two_accounts).1.runs ≡ "r2" ∷ []
unfolding delete_account erased lookup find_in delete_in
runs_left = refl

delete_account-Erased_example : Erased "u1" ada two_accounts (delete_account "u1" two_accounts).1
delete_account-Erased_example = delete_account-Erased "u1" ada two_accounts found

delete_account-export_example :
    export_account some_texts "u1" (delete_account "u1" two_accounts).1
    ≡ empty_export (some (anonymized "u1" ada))
delete_account-export_example = delete_account-export some_texts "u1" ada two_accounts found

delete_account-others_example :
    export_account some_texts "u2" (delete_account "u1" two_accounts).1
    ≡ export_account some_texts "u2" two_accounts
delete_account-others_example =
    delete_account-others some_texts "u1" "u2" two_accounts ne two_accounts-Keyed
