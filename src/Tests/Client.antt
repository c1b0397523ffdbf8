-- ===== src/Tests/Client.antt =====
-- A machine that pairs with a host.
use backr.Base.{
  Text, codes, eq_text, is_empty, is_whitespace, trim_start_by, trim_end_by, trim, split_from,
  strip_cr, lines_from, ok, ◌≡◌, refl, inr, false, Option, none, some, [], ◌∷◌, ◌++◌, arith,
}
use backr.Pairing.Client.{
  PairReply, PairDraft, PairWorld, PinFaults, draft_of, target_of, confirm_pair_draft, entry_of,
  pin_known_host, append_entry,
}
use backr.Pairing.Client.Pinned.{IsEntry, Confirmed, confirm_pair_draft-Confirmed}

abbrev reply : PairReply
reply = record {
  ssh_user = codes "backr";
  ssh_port = 22;
  backup_root = codes "/srv/backr";
  host_pubkey = codes "k ";
  host_key_fingerprint = codes "SHA256:x";
}

abbrev address : Text
address = codes "h:4411"

abbrev world : PairWorld
world = record {
  ensure_ssh_key = ok (codes "ssh-ed25519 AAAA");
  ssh_key_path = ok (codes "/home/u/.ssh/id_ed25519");
  default_projects_path = codes "/home/u/Projects";
  request_body = λ pubkey code. pubkey ++ 10 ∷ code;
  http_post_json = λ address path body. ok (200, codes "reply");
  from_json = λ body. ok reply;
}

abbrev draft : PairDraft
draft = draft_of address (codes "/home/u/.ssh/id_ed25519") (codes "/home/u/Projects") reply

abbrev faults : PinFaults
faults = record { located = ok tt; unreadable = false; opening = none; writing = none }

abbrev known_hosts : Option Text
known_hosts = some (codes "g k" ++ 10 ∷ [])

keyed : is_empty (trim draft.host_pubkey) ≡ false
unfolding trim trim_end_by trim_start_by is_whitespace
keyed = refl

pinned_line-IsEntry : IsEntry (entry_of draft.ssh_target (trim draft.host_pubkey))
unfolding trim trim_end_by trim_start_by is_whitespace target_of split_from
pinned_line-IsEntry = record {
  line = (omega arith, (omega arith, (omega arith, tt)));
  trimmed = refl;
}

confirmed : (confirm_pair_draft faults draft known_hosts).1 ≡ ok draft.config
unfolding confirm_pair_draft trim trim_end_by trim_start_by is_whitespace target_of split_from
    pin_known_host append_entry lines_from eq_text strip_cr
confirmed = refl

confirm_pair_draft-Confirmed_example :
    Confirmed draft known_hosts (confirm_pair_draft faults draft known_hosts)
confirm_pair_draft-Confirmed_example =
    confirm_pair_draft-Confirmed faults draft known_hosts draft.config keyed pinned_line-IsEntry
      (inr (codes "g k", refl)) confirmed
