-- ===== src/Api/Events/EventBuffer/Items.antt =====
-- Reading the maps of the event buffer (api/src/events/event-buffer.service.ts) after a write.
use staminads.Common.{String, ◌≡◌, refl, ap, true, false, Option, none, some, List, [], str_eq}
use staminads.Common.Dict.{
  Dict, get, put, remove, has, is_present, get-put_self, get-put_other, get-remove_self,
  get-remove_other,
}
use staminads.Api.Events.EventBuffer.{items, or_nil}

or_nil-absent : {Event : Type 0} (o : Option (List Event)) → is_present o ≡ false → or_nil o ≡ []
or_nil-absent none h = refl
or_nil-absent (some v) h = cc

module _ {Event : Type 0} (m : Dict (List Event)) (key : String) where
  pub items-put_self : (v : List Event) → items (put m key v) key ≡ v
  items-put_self v = ap or_nil (get-put_self m key v)

  pub items-put_other :
      (v : List Event) (k : String) → str_eq key k ≡ false → items (put m key v) k ≡ items m k
  items-put_other v k e = ap or_nil (get-put_other m key k v e)

  pub items-remove_self : items (remove m key) key ≡ []
  items-remove_self = ap or_nil (get-remove_self m key)

  pub items-remove_other : (k : String) → str_eq key k ≡ false → items (remove m key) k ≡ items m k
  items-remove_other k e = ap or_nil (get-remove_other m key k e)

  pub items-has : has m key ≡ false → items m key ≡ []
  items-has h = or_nil-absent (get m key) h

module _ {V : Type 0} (m : Dict V) (key : String) where
  pub has-put_self : (v : V) → has (put m key v) key ≡ true
  has-put_self v = ap is_present (get-put_self m key v)

  pub has-put_other : (v : V) (k : String) → str_eq key k ≡ false → has (put m key v) k ≡ has m k
  has-put_other v k e = ap is_present (get-put_other m key k v e)

  pub has-remove_self : has (remove m key) key ≡ false
  has-remove_self = ap is_present (get-remove_self m key)

  pub has-remove_other : (k : String) → str_eq key k ≡ false → has (remove m key) k ≡ has m k
  has-remove_other k e = ap is_present (get-remove_other m key k e)
