-- ===== src/Tests/Mail.antt =====
-- Inputs for src/web/mailqueue.py, src/web/b2fsend.py and the proposals of src/web/b2f.py.
use kp4pra.Prelude.{Bytes}
use kp4pra.Mail.Send.Escapes.{Breaks}
use kp4pra.Prelude.{take}
use kp4pra.Prelude.{Option}
use kp4pra.Prelude.{text_eq}
use kp4pra.Prelude.{
  ℕ, ◌+◌, ◌*◌, ◌%◌, ◌≡◌, refl, false, none, some, List, [], ◌∷◌, ◌++◌, Text, codes, length, sum,
  All,
}
use kp4pra.B2f.Proposal.{Item, build_proposals, build_proposals-checks, digit_value}
use kp4pra.Mail.Queue.{
  Record, Disk, Fields, get, read, states, total, safe_id, at_end, then_run, run_of, is_hex,
}
use kp4pra.PyText.{is_digit}
use kp4pra.Prelude.{text_eq}
use kp4pra.Mail.Queue.Reach.{Op, enqueues, updates, run_ops, run_ops-counts}
use mathlib.Core.Path.{subst}
use kp4pra.Prelude.{Bool-cases, inl, inr, is_nil, if◌then◌else◌}
use kp4pra.PyText.{strip, lstrip, rstrip, is_space, upper, to_upper, is_lower, partition}
use kp4pra.Mail.Queue.{given, new_record}
use kp4pra.Mail.Validate.{
  all_pass, validate_submission, check_address, check_ascii, from_library, to_error, is_ascii,
}
use kp4pra.Mail.Build.{station_call, build_message, Built}
use kp4pra.Mail.Build.Headers.{OneLine, build_message-OneLine}
use kp4pra.Mail.Build.Lines.{NoBreak, evaluated}
use kp4pra.Mail.Send.{base_callsign}
use kp4pra.Mail.Queue.Counts.{IsLegal, all_counts}
use kp4pra.Mail.Talk.{Cms, Message}
use kp4pra.Mail.Send.{Config, Ran, logged_in, send}
use kp4pra.Mail.Send.Outcomes.{Settled, send-Settled}

abbrev mail_id : Text
mail_id = codes "20260723T104530Z-1a2b3c4d"

abbrev failing : Fields
failing = record {
  new_status = some (codes "Failed");
  new_route = none;
  new_error = some (some (codes "no route"));
}

abbrev unknown_state : Fields
unknown_state = record { new_status = some (codes "Lost"); new_route = none; new_error = none }

abbrev ops : List Op
ops =
    enqueues mail_id 7 (codes "2026") (codes "a@b.c") [] (codes "Hi") (codes "text") (codes "es")
    ∷ enqueues (codes "../etc") 7 (codes "2026") (codes "a@b.c") [] (codes "Hi") (codes "text")
        (codes "es")
    ∷ updates mail_id failing
    ∷ updates mail_id unknown_state
    ∷ []

run_ops-counts_example :
    All IsLegal (run_ops ops [])
    × (all_counts states (run_ops ops []) ≡ total (run_ops ops []))
    × (total (run_ops ops []) ≡ length (run_ops ops []))
run_ops-counts_example = run_ops-counts ops

abbrev approved : Record
approved = record {
  id = mail_id;
  created = 7;
  created_iso = codes "2026";
  to = codes "a@b.c";
  reply_to = [];
  subject = codes "Hi";
  body = codes "text";
  lang = codes "en";
  status = codes "Approved";
  route = none;
  attempts = 0;
  error = none;
}

abbrev disk : Disk
disk = (mail_id, approved) ∷ []

abbrev live : Config
live = record {
  dry_run = false;
  callsign = codes "KP4PRA-10";
  cms_call = [];
  cms_password = codes "secret";
}

abbrev built : Message
built = record {
  item = record { mid = codes "ABCDEFGHIJKL"; size = 4; compressed_size = 3 };
  subject = codes "Hi";
  compressed = 1 ∷ 2 ∷ 3 ∷ [];
}

abbrev accepting : Cms
accepting = record {
  replies = codes "[WL2K-5.0-B2FWIHJM$]\r;PQ: 12345678\rCMS>" ∷ codes "FS Y\r" ∷ codes "FF\r" ∷ [];
  sends_left = 9;
  sent = [];
}

abbrev why : Ran → Text
why r = codes "not accepted"

-- In place of the digest, the first bytes.
abbrev digest : Bytes → Bytes
digest s = take 16 s

stored : get mail_id disk ≡ some approved
unfolding get safe_id at_end then_run run_of is_digit is_hex read text_eq
stored = refl

send-Settled_example :
    Settled mail_id built
      (Breaks logged_in digest (codes "secret") (codes "[KP4PRA-1-B2FHM$]") built accepting)
      (send live approved
        (codes "station")
        why
        (some built)
        logged_in
        digest
        (codes "[KP4PRA-1-B2FHM$]")
        accepting
        disk)
unfolding text_eq
send-Settled_example =
    send-Settled live approved (codes "station") why built logged_in digest
      (codes "[KP4PRA-1-B2FHM$]") accepting disk approved stored refl refl

abbrev item : Item
item = record { mid = codes "ABCDEFGHIJKL"; size = 321; compressed_size = 200 }

build_proposals-checks_example :
    (a : ℕ) × (b : ℕ) × ((build_proposals (item ∷ [])).text
      ≡ (build_proposals (item ∷ [])).block ++ (codes "F> " ++ a ∷ b ∷ 13 ∷ []))
    × ((sum (build_proposals (item ∷ [])).block + (digit_value a * 16 + digit_value b)) % 256 ≡ 0)
build_proposals-checks_example = build_proposals-checks (item ∷ [])

-- A validator that knows one address.
abbrev address : Text
address = codes "a@b.c"

abbrev knows : Text → Option Text
knows a = if text_eq a address then some address else none

knows-lawful : (a n : Text) → knows a ≡ some n → All NoBreak n × (is_nil (strip n) ≡ false)
unfolding all_pass strip lstrip rstrip is_space
knows-lawful a n h = elim (Bool-cases (text_eq a address)) [
  | inl e ↦
      let same : some address ≡ some n =
        subst (λ b. (if b then some address else none) ≡ some n) e h in
      subst (λ o. All NoBreak (given o address) × (is_nil (strip (given o address)) ≡ false)) same
        (evaluated address refl, refl)
  | inr e ↦
      let no_address = subst (λ b. (if b then some address else none) ≡ some n) e h in absurd (cc)
]

cr_lf : codes "\r\n" ≡ 13 ∷ 10 ∷ []
cr_lf = refl

callsign_known : station_call (codes "kp4pra-10") ≡ some (codes "KP4PRA")
unfolding station_call base_callsign text_eq strip lstrip rstrip is_space upper to_upper is_lower
    partition
callsign_known = refl

submitted :
    (validate_submission (some knows) address [] (codes "Hi\nTo: x@y.z") (codes "text")).1.to ≡ none
unfolding validate_submission check_address check_ascii from_library to_error is_ascii all_pass
    strip lstrip rstrip is_space text_eq
submitted = refl

abbrev one_line : Text → List Text
one_line s = s ∷ []

build_message-OneLine_example :
    let cleaned =
      (validate_submission (some knows) address [] (codes "Hi\nTo: x@y.z") (codes "text")).0 in
    (b : Built) × (build_message
        (codes "kp4pra-10")
        one_line
        (new_record mail_id 7
          (codes "2026")
          cleaned.to
          cleaned.reply_to
          cleaned.subject
          cleaned.body
          (codes "en"))
        (codes "ABCDEFGHIJKL")
        (codes "2026/07/23 10:45")
      ≡ some b)
    × All OneLine b.headers
unfolding all_pass
build_message-OneLine_example =
    build_message-OneLine knows (codes "kp4pra-10") (codes "KP4PRA") (codes "ABCDEFGHIJKL")
      (codes "2026/07/23 10:45") mail_id (codes "2026") (codes "en") 7 one_line address []
      (codes "Hi\nTo: x@y.z") (codes "text") knows-lawful callsign_known
      (evaluated (codes "kp4pra-10") refl) (evaluated (codes "ABCDEFGHIJKL") refl)
      (evaluated (codes "2026/07/23 10:45") refl) submitted
