-- ===== src/Sms/Tests.antt =====
-- A listing of short messages from two stores, and the theorem at it.
use zte_u60_pro_mu5250_data.Common.{
  ℕ, String, true, List, [], ◌∷◌, ◌==◌, Result, ok, refl, arith, if◌then◌else◌,
}
use zte_u60_pro_mu5250_data.Sms.Listing.{
  list_max_pages, Message, list_after_with, read_pages, see_page, see_message, has_id, put_new,
  ids_of, put_id, same_ids,
}
use zte_u60_pro_mu5250_data.Sms.Found.{messages, Serves}
use zte_u60_pro_mu5250_data.Sms.Complete.{Lists, list_after-Lists}

abbrev device_store : List (ℕ × String)
device_store = (9, "late") ∷ (4, "early") ∷ []

abbrev card_store : List (ℕ × String)
card_store = (7, "card") ∷ []

-- Each store has one page.
abbrev pages : ℕ → ℕ → Result String (List (Message String))
pages store page =
    if page == 0 then ok (messages (if store == 1 then device_store else card_store)) else ok []

pages_hold_device : Serves pages 1 0 device_store list_max_pages
pages_hold_device = ground arith

pages_hold_card : Serves pages 0 0 card_store list_max_pages
pages_hold_card = ground arith

list_after-Lists_example : Lists pages 4 1 device_store card_store ((7, "card") ∷ []) true
unfolding list_after_with read_pages see_page see_message has_id put_new ids_of put_id same_ids
list_after-Lists_example =
    list_after-Lists pages 4 1 device_store card_store ((7, "card") ∷ []) true pages_hold_device
      pages_hold_card ((omega arith, tt), (tt, tt)) (tt, tt) (λ k o. ground arith) refl
