-- ===== src/Pairing/Client/Pinned.antt =====
-- What a confirmed pairing leaves in the file of known hosts.
use backr.Base.{
  Result-cases, trim-strip_cr, lines-append, lines_line, if◌then◌else◌, Bool-cases, Option-cases,
  any, All, Text, is_empty, trim, strip_cr, lines_from, lines, eq_text_self, Result, ok, ◌≡◌, refl,
  sym, ◌≢◌, ◌⊎◌, inl, inr, Bool, true, false, Option, List, [], ◌∷◌, ◌++◌, append_assoc,
}
use backr.Daemon.State.{Config}
use backr.Pairing.Client.{
  PairDraft, PinFaults, entry_of, content, holds_entry, append_entry, pin_known_host,
  confirm_pair_draft,
}

-- The text is empty or ends its last line.
abbrev pub IsComplete : Text → Type 0
IsComplete text = (text ≡ []) ⊎ ((s : Text) × (text ≡ s ++ 10 ∷ []))

-- One line of text, with no blanks around it.
pub record IsEntry (entry : Text) : Type 0 where
  pub line : All (λ c. c ≢ 10) entry
  pub trimmed : trim entry ≡ entry

-- `new` holds the entry, and the lines of `old` in their order with nothing else but the entry.
pub record Pins (entry old new : Text) : Type 0 where
  pub pinned : holds_entry entry new ≡ true
  pub kept : (lines new ≡ lines old) ⊎ (lines new ≡ lines old ++ strip_cr entry ∷ [])
  pub complete : IsComplete new

any-append_last :
    (p : Text → Bool) (ls : List Text) (l : Text) → p l ≡ true → any p (ls ++ l ∷ []) ≡ true
any-append_last p [] l h = rw (h) refl
any-append_last p (x ∷ ls) l h = elim (Bool-cases (p x)) [
  | inl holds ↦ rw (holds) refl
  | inr fails ↦ rw (fails) (any-append_last p ls l h)
]

lines-append_entry :
    (entry text : Text)
    → IsEntry entry
    → IsComplete text
    → lines (text ++ (entry ++ 10 ∷ [])) ≡ lines text ++ strip_cr entry ∷ []
unfolding lines_from
lines-append_entry entry text h (inl e) = rw (e) (lines_line entry h.line)
lines-append_entry entry text h (inr (s, e)) =
    rw
      (
        e,
        append_assoc s (10 ∷ []) (entry ++ 10 ∷ []),
        lines-append s (entry ++ 10 ∷ []),
        lines_line entry h.line,
      )
      refl

appended-Pins :
    (entry text : Text)
    → IsEntry entry
    → IsComplete text
    → Pins entry text (text ++ (entry ++ 10 ∷ []))
appended-Pins entry text h complete = record {
  pinned =
      rw (lines-append_entry entry text h complete) (
        any-append_last _ (lines text) _
          (rw (trim-strip_cr entry, h.trimmed) (eq_text_self entry)));
  kept = inr (lines-append_entry entry text h complete);
  complete = inr (text ++ entry, sym (append_assoc text entry (10 ∷ [])));
}

append_entry-Pins :
    (f : PinFaults) (entry : Text) (file : Option Text)
    → IsEntry entry
    → IsComplete (content file)
    → (append_entry f entry file).1 ≡ ok tt
    → Pins entry (content file) (content (append_entry f entry file).0)
unfolding append_entry
append_entry-Pins f entry file h complete e = elim (Option-cases f.opening) [
  | inr (m, shut) ↦ let q = rw (append_entry, shut) at e in cc
  | inl opens ↦ elim (Option-cases f.writing) [
    | inr (m, torn) ↦ let q = rw (append_entry, opens, torn) at e in cc
    | inl writes ↦ rw (append_entry, opens, writes) (appended-Pins entry (content file) h complete)
  ]
]

holds_entry_read :
    (entry text : Text) (unreadable : Bool)
    → holds_entry entry (if unreadable then [] else text) ≡ true
    → holds_entry entry text ≡ true
unfolding lines_from
holds_entry_read entry text true h = cc
holds_entry_read entry text false h = h

pin_known_host-Pins :
    (f : PinFaults) (host pubkey : Text) (file : Option Text)
    → IsEntry (entry_of host pubkey)
    → IsComplete (content file)
    → (pin_known_host f host pubkey file).1 ≡ ok tt
    → Pins (entry_of host pubkey) (content file) (content (pin_known_host f host pubkey file).0)
unfolding pin_known_host
pin_known_host-Pins f host pubkey file h complete e = elim (Result-cases f.located) [
  | inr (m, lost) ↦ let q = rw (pin_known_host, lost) at e in cc
  | inl (_, found) ↦
      elim (Bool-cases
        (holds_entry (entry_of host pubkey) (if f.unreadable then [] else content file))) [
          | inl held ↦
              rw (pin_known_host, found, held)
                (record {
                  pinned = holds_entry_read (entry_of host pubkey) (content file) f.unreadable held;
                  kept = inl refl;
                  complete = complete;
                })
          | inr absent ↦
              rw (pin_known_host, found, absent)
                (append_entry-Pins f (entry_of host pubkey) file h complete
                  (let q = rw (pin_known_host, found, absent) at e in q))
        ]
]

pin_known_host_held :
    (f : PinFaults) (host pubkey : Text) (file : Option Text)
    → f.unreadable ≡ false
    → f.located ≡ ok tt
    → holds_entry (entry_of host pubkey) (content file) ≡ true
    → pin_known_host f host pubkey file ≡ (file, ok tt)
unfolding pin_known_host
pin_known_host_held f host pubkey file readable found held =
    rw (pin_known_host, found, readable, held) refl

confirm_pair_draft_held :
    (f : PinFaults) (draft : PairDraft) (file : Option Text)
    → is_empty (trim draft.host_pubkey) ≡ false
    → f.unreadable ≡ false
    → f.located ≡ ok tt
    → holds_entry (entry_of draft.ssh_target (trim draft.host_pubkey)) (content file) ≡ true
    → confirm_pair_draft f draft file ≡ (file, ok draft.config)
unfolding confirm_pair_draft
confirm_pair_draft_held f draft file keyed readable found held =
    rw
      (
        confirm_pair_draft,
        keyed,
        pin_known_host_held f draft.ssh_target (trim draft.host_pubkey) file readable found held,
      )
      refl

-- A confirmation that succeeds gives the draft's configuration and, where the host sent a key, leaves
-- a file that pins it; confirming the same draft again, with the file readable, changes nothing.
pub record Confirmed (draft : PairDraft) (file : Option Text) (r : Option Text × Result Config Text)
    : Type 0 where
  pub config : r.1 ≡ ok draft.config
  pub pins : Pins (entry_of draft.ssh_target (trim draft.host_pubkey)) (content file) (content r.0)
  pub again :
      (f : PinFaults)
      → f.unreadable ≡ false
      → f.located ≡ ok tt
      → confirm_pair_draft f draft r.0 ≡ (r.0, ok draft.config)

-- A confirmation that succeeds, of a draft whose host key is not empty and one line, for a file that ends
-- its last line, gives the draft's configuration, pins the key under the host of the draft, keeps the lines
-- of the file, and changes nothing when it is repeated with the file readable.
pub confirm_pair_draft-Confirmed :
    (f : PinFaults) (draft : PairDraft) (file : Option Text) (cfg : Config)
    → is_empty (trim draft.host_pubkey) ≡ false
    → IsEntry (entry_of draft.ssh_target (trim draft.host_pubkey))
    → IsComplete (content file)
    → (confirm_pair_draft f draft file).1 ≡ ok cfg
    → Confirmed draft file (confirm_pair_draft f draft file)
unfolding confirm_pair_draft
confirm_pair_draft-Confirmed f draft file cfg keyed h complete e =
    elim (Result-cases (pin_known_host f draft.ssh_target (trim draft.host_pubkey) file).1) [
      | inr (m, failed) ↦ let q = rw (confirm_pair_draft, keyed, failed) at e in cc
      | inl (tt, pinned) ↦
          rw (confirm_pair_draft, keyed, pinned)
            (record {
              config = refl;
              pins = placed pinned;
              again = λ f' readable found.
                  confirm_pair_draft_held f' draft _ keyed readable found (placed pinned).pinned;
            })
    ]
  where
    placed :
        (pin_known_host f draft.ssh_target (trim draft.host_pubkey) file).1 ≡ ok tt
        → Pins
            (entry_of draft.ssh_target (trim draft.host_pubkey))
            (content file)
            (content (pin_known_host f draft.ssh_target (trim draft.host_pubkey) file).0)
    placed = pin_known_host-Pins f draft.ssh_target (trim draft.host_pubkey) file h complete
