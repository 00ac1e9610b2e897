-- ===== src/BotReader/Reads.antt =====
-- What consumeTags hands on.
use guhfrtui.Base.{
  ℕ, ◌+◌, ◌%◌, ◌^◌, ◌<◌, ◌≡◌, refl, sym, ap, ◌∙◌, Bool, true, false, not, ◌||◌, List, [], ◌∷◌, ◌++◌,
  Option, none, some, length, append-nil, append_assoc, if◌then◌else◌, Bool-cases, inl, inr,
  length-append, subst, Bytes, arith,
}
use guhfrtui.Text.{is_empty, trim_space}
use guhfrtui.Sdk.Client.{TagEvent}
use guhfrtui.BotReader.{
  Error, tag_channel_closed, error_channel_closed, reader_failed, Manager, set_error,
  set_long_range_mode, show_config,
}
use guhfrtui.BotReader.Loop.{
  Event, context_done, tags_closed, errors_closed, nil_error, tag, error, mode_set, take_tag,
  consume_tags,
}

-- The trimmed EPCs of the new tags, those with a text, before the event that ends the loop.
unfoldable pub new_epcs : List Event → List Bytes
new_epcs [] = []
new_epcs (context_done ∷ events) = []
new_epcs (tags_closed ∷ events) = []
new_epcs (errors_closed ∷ events) = []
new_epcs (error text ∷ events) = []
new_epcs (nil_error ∷ events) = new_epcs events
new_epcs (mode_set enabled ∷ events) = new_epcs events
new_epcs (tag t now ∷ events) =
    let rest = new_epcs events in
    if not t.is_new || is_empty (trim_space t.epc) then rest else trim_space t.epc ∷ rest

-- Whether the first event that ends the loop wants a reconnection; none if there is no such event.
unfoldable pub ending : List Event → Option Bool
ending [] = none
ending (context_done ∷ events) = some false
ending (tags_closed ∷ events) = some true
ending (errors_closed ∷ events) = some true
ending (error text ∷ events) = some true
ending (nil_error ∷ events) = ending events
ending (mode_set enabled ∷ events) = ending events
ending (tag t now ∷ events) = ending events

unfoldable pub last_of : Bytes → List Bytes → Bytes
last_of last [] = last
last_of last (x ∷ xs) = last_of x xs

-- What a list of EPCs has done to the manager.
pub record Handed (epcs : List Bytes) (m m' : Manager) : Type 0 where
  pub handed : m'.handed ≡ m.handed ++ epcs
  pub counted : m'.status.unique_seen ≡ (m.status.unique_seen + length epcs) % 2 ^ 64
  pub last : m'.status.last_tag_epc ≡ last_of m.status.last_tag_epc epcs
  pub handler : m'.has_handler ≡ m.has_handler

-- What stays the same under the other events.
pub record SameReads (m m' : Manager) : Type 0 where
  pub handed : m'.handed ≡ m.handed
  pub counted : m'.status.unique_seen ≡ m.status.unique_seen
  pub last : m'.status.last_tag_epc ≡ m.status.last_tag_epc
  pub handler : m'.has_handler ≡ m.has_handler

SameReads-refl : (m : Manager) → SameReads m m
SameReads-refl m = record { handed = refl; counted = refl; last = refl; handler = refl }

set_long_range_mode-SameReads :
    (enabled : Bool) (m : Manager) → SameReads m (set_long_range_mode enabled m)
unfolding set_long_range_mode show_config
set_long_range_mode-SameReads true m = ground arith
set_long_range_mode-SameReads false m = ground arith

nothing-Handed : (m m' : Manager) → m.status.unique_seen < 2 ^ 64 → SameReads m m' → Handed [] m m'
unfolding last_of
nothing-Handed m m' h s = record {
  handed = s.handed ∙ sym (append-nil m.handed);
  counted = ground (arith, s.counted);
  last = s.last;
  handler = s.handler;
}

then-Handed :
    (epcs : List Bytes) (m m' m'' : Manager)
    → SameReads m m'
    → Handed epcs m' m''
    → Handed epcs m m''
then-Handed epcs m m' m'' s h = record {
  handed = h.handed ∙ ap (λ xs. xs ++ epcs) s.handed;
  counted = h.counted ∙ ap (λ (n : ℕ). (n + length epcs) % 2 ^ 64) s.counted;
  last = h.last ∙ ap (λ b. last_of b epcs) s.last;
  handler = h.handler ∙ s.handler;
}

failed-Handed :
    (e : Error) (m : Manager) → m.status.unique_seen < 2 ^ 64 → Handed [] m (set_error e m)
unfolding set_error
failed-Handed e m b =
    nothing-Handed m _ b (record { handed = refl; counted = refl; last = refl; handler = refl })

one-Handed :
    (t : TagEvent) (now : ℕ) (m : Manager)
    → m.has_handler ≡ true
    → m.status.unique_seen < 2 ^ 64
    → Handed
        (if not t.is_new || is_empty (trim_space t.epc) then [] else trim_space t.epc ∷ [])
        m
        (take_tag t now m)
unfolding take_tag
one-Handed t now m h b = elim (Bool-cases (not t.is_new || is_empty (trim_space t.epc))) [
  | inl skipped ↦ rw skipped (nothing-Handed m m b (SameReads-refl m))
  | inr counted ↦
      rw (counted, h)
        (record { handed = refl; counted = refl; last = unfold last_of in refl; handler = refl })
]

last_of-append : (b : Bytes) (xs ys : List Bytes) → last_of b (xs ++ ys) ≡ last_of (last_of b xs) ys
unfolding last_of
last_of-append b [] ys = refl
last_of-append b (x ∷ xs) ys = last_of-append x xs ys

append-Handed :
    (xs ys : List Bytes) (m m' m'' : Manager)
    → Handed xs m m'
    → Handed ys m' m''
    → Handed (xs ++ ys) m m''
append-Handed xs ys m m' m'' h k = record {
  handed = k.handed ∙ ap (λ zs. zs ++ ys) h.handed ∙ append_assoc m.handed xs ys;
  counted = k.counted ∙ omega (arith, h.counted, length-append xs ys);
  last = k.last ∙ ap (λ b. last_of b ys) h.last ∙ sym (last_of-append m.status.last_tag_epc xs ys);
  handler = k.handler ∙ h.handler;
}

split_new :
    (skipped : Bool) (x : Bytes) (rest : List Bytes)
    → (if skipped then [] else x ∷ []) ++ rest ≡ (if skipped then rest else x ∷ rest)
split_new true x rest = refl
split_new false x rest = refl

-- With a handler, consumeTags hands it the trimmed EPC of each new tag with a text, in order, up to the
-- event that ends the loop; it counts them, modulo 2^64, and the status shows the last of them. It asks
-- for a reconnection exactly if the loop ends with a closed channel or an error, and for none when the
-- context is done; tags seen before, blank ones, nil errors and changes of the mode count for nothing.
pub consume_tags_lem :
    (events : List Event) (m : Manager)
    → m.has_handler ≡ true
    → m.status.unique_seen < 2 ^ 64
    → let (reconnect, m') = consume_tags events m in
      (reconnect ≡ ending events) × Handed (new_epcs events) m m'
unfolding consume_tags new_epcs ending set_error
consume_tags_lem [] m h b = (refl, nothing-Handed m m b (SameReads-refl m))
consume_tags_lem (context_done ∷ events) m h b = (refl, nothing-Handed m m b (SameReads-refl m))
consume_tags_lem (tags_closed ∷ events) m h b = (refl, failed-Handed tag_channel_closed m b)
consume_tags_lem (errors_closed ∷ events) m h b = (refl, failed-Handed error_channel_closed m b)
consume_tags_lem (error text ∷ events) m h b = (refl, failed-Handed (reader_failed text) m b)
consume_tags_lem (nil_error ∷ events) m h b = consume_tags_lem events m h b
consume_tags_lem (mode_set enabled ∷ events) m h b =
    let same = set_long_range_mode-SameReads enabled m in
    let rest =
      consume_tags_lem events (set_long_range_mode enabled m) (same.handler ∙ h)
        (omega (arith, same.counted, b)) in
    (rest.0, then-Handed (new_epcs events) m _ _ same rest.1)
consume_tags_lem (tag t now ∷ events) m h b =
    let skipped : Bool = not t.is_new || is_empty (trim_space t.epc) in
    let first = one-Handed t now m h b in
    let rest =
      consume_tags_lem events (take_tag t now m) (first.handler ∙ h)
        (omega (arith, first.counted)) in
    (
      rest.0,
      subst (λ es. Handed es m (consume_tags events (take_tag t now m)).1)
          {x = (if skipped then [] else trim_space t.epc ∷ []) ++ new_epcs events}
          (split_new skipped (trim_space t.epc) (new_epcs events))
          (append-Handed _ (new_epcs events) m _ _ first rest.1),
    )
