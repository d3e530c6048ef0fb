-- ===== src/Notification/Message/Shown.antt =====
-- What `getTypeTxMsg` of src/shared/helpers/transaction.helper.ts shows of the types of messages.
use text.Mathlib.TextLemmas.{append_assoc, append-nil, nil-append, cons-append, cons-ne-nil}
use aura_explorer_api.Prelude.{
  ℕ, zero, suc, ◌+◌, ◌≤◌, ◌≡◌, ◌≢◌, ◌∙◌, refl, sym, ap, String, true, false, ◌==◌, string_eq,
  Option, List, [], ◌∷◌, arith, leb, take, All, eq_iff,
}
use aura_explorer_api.Prelude.Text.{◌<>◌, join, join_rest}
use aura_explorer_api.Exec.{ok}
use aura_explorer_api.Exec.Results.{map_each, map_each-cons}
use aura_explorer_api.WatchList.Settings.{Json}
use aura_explorer_api.Notification.Message.{
  Message, message_type, add_types, with_more, get_type_tx_msg,
}

module _ (parse : String → Option Json) where
  add_types-later :
      (n : ℕ) (r : String) (ms : List Message) (types : List String)
      → 5 ≤ n
      → map_each (message_type parse) ms ≡ ok types
      → add_types parse n r ms ≡ ok r
  unfolding add_types
  add_types-later n r [] types late h = refl
  add_types-later n r (m ∷ ms) types late h =
      let (t, ts, here, rest, _) = map_each-cons (message_type parse) m ms types h in
      let over : leb n 4 ≡ false = ground arith in
      rw (here, over) (add_types-later (suc n) r ms ts (omega arith) rest)

  append-nonempty : (r t : String) → r ≢ "" → r <> t ≢ ""
  append-nonempty String.[] t h e = h refl
  append-nonempty (String.◌∷◌ c r) t h e = cons-ne-nil c (r <> t) (sym (cons-append c r t) ∙ e)

  add_types-shown :
      (k n : ℕ) (r : String) (ms : List Message) (types : List String)
      → n + k ≡ 5
      → r ≢ ""
      → map_each (message_type parse) ms ≡ ok types
      → add_types parse n r ms ≡ ok (r <> join_rest ", " (take k types))
  unfolding add_types
  add_types-shown zero n r ms types sum h all =
      add_types-later n r ms types (omega arith) all ∙ ap ok (sym (append-nil r))
  add_types-shown (suc k) n r [] types sum h all =
      let none_left : types ≡ [] = cc in rw none_left (ap ok (sym (append-nil r)))
  add_types-shown (suc k) n r (m ∷ ms) types sum h all =
      let (t, ts, here, rest, same) = map_each-cons (message_type parse) m ms types all in
      let within : leb n 4 ≡ true = ground arith in
      let more : (r == "") ≡ false = ground (arith, eq_iff r "") in
      let later =
        add_types-shown k (suc n) (r <> (", " <> t)) ms ts (omega arith)
          (append-nonempty r (", " <> t) h) rest in
      rw (here, within, more, same)
        (later
          ∙ ap ok (
              append_assoc r (", " <> t) (join_rest ", " (take k ts))
              ∙ ap (λ x. r <> x) (append_assoc ", " t (join_rest ", " (take k ts)))))

  -- If every message has a type that can be read and is not empty, the text is the list of the first
  -- five types, with an ellipsis exactly if there are more than five messages.
  pub get_type_tx_msg-join :
      (ms : List Message) (types : List String)
      → map_each (message_type parse) ms ≡ ok types
      → All (λ t. t ≢ "") types
      → get_type_tx_msg parse ms ≡ ok (with_more parse ms (join ", " (take 5 types)))
  unfolding get_type_tx_msg add_types
  get_type_tx_msg-join [] types all nonempty = let none_left : types ≡ [] = cc in rw none_left refl
  get_type_tx_msg-join (m ∷ ms) types all nonempty =
      let (t, ts, here, rest, same) = map_each-cons (message_type parse) m ms types all in
      let nonempty' = rw same at nonempty in
      let shown = add_types-shown 4 1 t ms ts refl nonempty'.0 rest in
      rw (here, nil-append t, shown, same) refl
