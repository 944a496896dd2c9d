-- ===== src/Tests/Trials.antt =====
-- The theorems on challenges, applied.
use mnemoca.Prelude.{true, none, some, [], ◌∷◌, ◌≡◌, refl, ◌⊎◌, lookup, insert}
use mnemoca.Store.Fault.{fine}
use mnemoca.Acme.Problem.{Account}
use mnemoca.Acme.Orders.{Authz, Order, Status, scan}
use mnemoca.Acme.Challenges.{Challenge, Network, Trials, ChallengeCall, handle_challenge}
use mnemoca.Acme.Challenges.Answers.{IsOwn, IsJudged}
use mnemoca.Acme.Challenges.Proved.{handle_challenge-IsJudged}
use mnemoca.Acme.Challenges.Ordered.{IsMoved, handle_challenge-IsMoved}
use mnemoca.Tests.Requests.{codec}

-- the host serves the account's key authorization
abbrev network : Network
network = record {
  fetch = λ host token. some (record { code = 200; body = some (1 ∷ []) });
  txt = λ name. none;
  text = λ b. "tok.t\n";
  is_json = λ b. true;
}

abbrev acct : Account
acct = record {
  id = "a1";
  thumbprint = "t";
  jwk = "{}";
  contact = [];
  status = "valid";
  eab = "";
  created_at = 5;
}

abbrev authz : Status → Authz
authz status = record {
  id = "z";
  order_id = "o";
  account_id = "a1";
  identifier = "a.example";
  status = status;
  expires = 90;
  challenge_ids = "h" ∷ [];
}

abbrev order : Status → Order
order status = record {
  id = "o";
  account_id = "a1";
  status = status;
  expires = 90;
  identifiers = "a.example" ∷ [];
  authz_ids = "z" ∷ [];
  cert_id = "";
  error = none;
}

abbrev challenge : Challenge
challenge = record {
  id = "h";
  authz_id = "z";
  typ = "http-01";
  token = "tok";
  status = Status.pending;
  validated = none;
  error = none;
}

abbrev trials : Trials
trials = record {
  challenges = record { docs = ("h", challenge) ∷ []; seq = 0 };
  authzs = record { docs = ("z", authz Status.pending) ∷ []; seq = 0 };
  orders = record { docs = ("o", order Status.pending) ∷ []; seq = 0 };
}

abbrev call : ChallengeCall
call = record {
  now = 7;
  on_challenge = fine;
  on_authz = fine;
  on_store_challenge = fine;
  on_store_authz = fine;
  on_order = fine;
  on_scan = λ id. fine;
  on_store_order = fine;
}

handle_challenge-IsJudged_example :
    (lookup "z" trials.authzs.docs ≡ some (authz Status.valid))
    ⊎ ((a : Account) × (ch : Challenge) × (az : Authz) × (some acct ≡ some a)
        × IsOwn (some acct) "h" trials ch az
        × (ch.status ≡ Status.pending)
        × ("z" ≡ az.id)
        × IsJudged codec network a az ch (authz Status.valid))
unfolding handle_challenge lookup insert
handle_challenge-IsJudged_example =
    handle_challenge-IsJudged codec network call (some acct) "h" (1 ∷ []) trials "z"
      (authz Status.valid) refl

handle_challenge-IsMoved_example :
    IsMoved
      (handle_challenge codec network call (some acct) "h" (1 ∷ []) trials).1.authzs
      (order Status.pending)
      (order Status.ready)
unfolding handle_challenge lookup scan insert
handle_challenge-IsMoved_example =
    handle_challenge-IsMoved codec network call (some acct) "h" (1 ∷ []) trials "o"
      (order Status.pending) (order Status.ready) refl refl
