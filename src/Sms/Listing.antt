-- ===== src/Sms/Listing.antt =====
-- `list_after_with`: the messages above an id, from the pages of two stores (rust/src/sms.rs). A
-- message is its id, if it has one, with its other fields, of any type `V`; the reply to a page is the
-- list of its messages. Reading a page is a parameter.
use zte_u60_pro_mu5250_data.Common.{
  ℕ, zero, suc, ◌+◌, String, Bool, true, false, ◌&&◌, ◌||◌, not, Option, none, some, List, [], ◌∷◌,
  ◌==◌, ltb, leb, length, take, if◌then◌else◌, Result, ok, err, ◌>>=◌,
}

abbrev pub list_page : ℕ
list_page = 50

abbrev pub list_max_pages : ℕ
list_max_pages = 20

pub record Message (V : Type 0) : Type 0 where
  pub id : Option ℕ
  pub body : V

pub data ListError : Type 0 where
  too_many : ℕ → ListError
  not_read : ℕ → String → ListError
  repeats : ℕ → ℕ → ListError

-- A `BTreeSet` of ids: ascending, each once.
unfoldable pub put_id : ℕ → List ℕ → List ℕ
put_id i [] = i ∷ []
put_id i (k ∷ more) =
    let rest = put_id i more in
    if ltb i k then i ∷ k ∷ more else if i == k then k ∷ more else k ∷ rest

unfoldable pub same_ids : List ℕ → List ℕ → Bool
same_ids [] [] = true
same_ids (a ∷ more) (b ∷ rest) = a == b && same_ids more rest
same_ids _ _ = false

module _ {V : Type 0} where
  unfoldable pub ids_of : List (Message V) → List ℕ
  unfolding put_id
  ids_of [] = []
  ids_of (m ∷ more) = let ids = ids_of more in elim m.id [ none ↦ ids | some i ↦ put_id i ids ]

  -- A `BTreeMap` of messages by id: ascending, each id once.
  unfoldable pub has_id : ℕ → List (ℕ × V) → Bool
  has_id i [] = false
  has_id i ((k, v) ∷ more) = i == k || has_id i more

  -- The entry of an id that is vacant.
  unfoldable pub put_new : ℕ → V → List (ℕ × V) → List (ℕ × V)
  put_new i v [] = (i, v) ∷ []
  put_new i v ((k, w) ∷ more) =
      let rest = put_new i v more in if ltb i k then (i, v) ∷ (k, w) ∷ more else (k, w) ∷ rest

-- What has been found, and whether the page reached the id and had a new message.
pub record Seen (V : Type 0) : Type 0 where
  pub found : List (ℕ × V)
  pub reached : Bool
  pub fresh : Bool

module _ {V : Type 0} where
  unfoldable pub see_message : ℕ → Message V → Seen V → Seen V
  unfolding has_id put_new
  see_message after m s = elim m.id [
    | none ↦ s
    | some i ↦
        if leb i after
        then record s { reached = true }
        else if has_id i s.found
        then s
        else record s { found = put_new i m.body s.found; fresh = true }
  ]

  unfoldable pub see_page : ℕ → List (Message V) → Seen V → Seen V
  unfolding see_message
  see_page after [] s = s
  see_page after (m ∷ more) s = see_page after more (see_message after m s)

  -- The first ones, and whether there are more.
  abbrev pub first_found : ℕ → List (ℕ × V) → List (ℕ × V) × Bool
  first_found limit found = (take limit found, ltb limit (length found))

  abbrev pub is_repeat : Option (List ℕ) → List (Message V) → Bool
  is_repeat none items = false
  is_repeat (some ids) items = leb list_page (length items) && same_ids ids (ids_of items)

  abbrev pub page_ends : List (Message V) → Seen V → Bool
  page_ends items s = s.reached || not s.fresh || ltb (length items) list_page

module _ {V : Type 0} (fetch : ℕ → ℕ → Result String (List (Message V))) where
  -- The pages of a store from `page` on, of which `left` may still be read.
  unfoldable pub read_pages :
      ℕ → ℕ → ℕ → ℕ → Option (List ℕ) → List (ℕ × V) → Result ListError (List (ℕ × V))
  unfolding see_page same_ids ids_of
  read_pages after store zero page prev found = err (too_many store)
  read_pages after store (suc left) page prev found = elim (fetch store page) [
    | err e ↦ err (not_read store e)
    | ok items ↦
        if is_repeat prev items
        then err (repeats store page)
        else (let s =
              see_page after items (record { found = found; reached = false; fresh = false }) in
            elim (page_ends items s) [
              | true ↦ ok s.found
              | false ↦ read_pages after store left (page + 1) (some (ids_of items)) s.found
            ])
  ]

  unfoldable pub list_after_with : ℕ → ℕ → Result ListError (List (ℕ × V) × Bool)
  unfolding read_pages
  list_after_with after limit = do
    nv ← read_pages after 1 list_max_pages 0 none []
    found ← read_pages after 0 list_max_pages 0 none nv
    ok (first_found limit found)
