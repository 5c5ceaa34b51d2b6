-- ===== src/Map/Lookup/Digests.antt =====
-- From the element of one digest to the contents of hkeyElements (map_elements_hashkey.go).
use atree.Prelude.{
  ℕ, zero, suc, ◌≡◌, ◌∙◌, ap, sym, false, Option, List, [], ◌∷◌, ◌==◌, set, insert_at, Bool-cases,
  inl, inr, ==_iff,
}
use atree.Map.Slab.{Element, Elements}
use atree.Map.Client.{Client, IsLawfulClient}
use atree.Map.Lookup.{AllOf, key_digest, look_element, scan}
use atree.Map.Lookup.Stores.{Stores}

module _ {T : Type 0} (P : T → Type 0) where
  pub AllOf-insert_at :
      (ts : List T) (i : ℕ) (t : T) → AllOf P ts → P t → AllOf P (insert_at ts i t)
  AllOf-insert_at ts zero t a p = (p, a)
  AllOf-insert_at [] (suc i) t a p = (p, tt)
  AllOf-insert_at (u ∷ ts) (suc i) t a p = (a.0, AllOf-insert_at ts i t a.1 p)

  pub AllOf-set : (ts : List T) (i : ℕ) (t : T) → AllOf P ts → P t → AllOf P (set ts i t)
  AllOf-set [] i t a p = tt
  AllOf-set (u ∷ ts) zero t a p = (p, a.1)
  AllOf-set (u ∷ ts) (suc i) t a p = (a.0, AllOf-set ts i t a.1 p)

module _ {E S V : Type 0} (client : Client E S V) (law : IsLawfulClient client) where
  pub Stores-from :
      {key value : V} {old old' new : V → Option (E × E)} {stored : E} {replaced : Option E}
      → ((q : V) → old q ≡ old' q)
      → Stores law key value old new stored replaced
      → Stores law key value old' new stored replaced
  Stores-from {key} same st = record {
    holds = st.holds;
    is_key = st.is_key;
    others = λ key' n. st.others key' n ∙ same key';
    before = rw (same key) at (st.before);
  }

  module _ (level : ℕ) (look : V → Elements E → Option (E × E)) where
    -- The contents under a key, for the element of its digest.
    abbrev pub at_element : V → Option (Element E) → Option (E × E)
    at_element q o = look_element client law (look q) q o

    -- What is stored under the one digest is stored in all.
    pub scan-Stores :
        (key value : V) (hs hs' : List ℕ) (ts ts' : List (Element E)) (o o' : Option (Element E))
        (stored : E) (replaced : Option E)
        → scan hs ts (key_digest client law key level) ≡ o
        → scan hs' ts' (key_digest client law key level) ≡ o'
        → ((j : ℕ) → (key_digest client law key level == j) ≡ false → scan hs' ts' j ≡ scan hs ts j)
        → Stores law key value (λ q. at_element q o) (λ q. at_element q o') stored replaced
        → Stores law key value
            (λ q. at_element q (scan hs ts (key_digest client law q level)))
            (λ q. at_element q (scan hs' ts' (key_digest client law q level)))
            stored
            replaced
    scan-Stores key value hs hs' ts ts' o o' stored replaced e e' same st = record {
      holds = rw e' (st.holds);
      is_key = st.is_key;
      others = λ key' n.
          elim (Bool-cases (key_digest client law key level == key_digest client law key' level)) [
            | inr other ↦ ap (at_element key') (same (key_digest client law key' level) other)
            | inl equal ↦
                let k : key_digest client law key level ≡ key_digest client law key' level =
                  (==_iff _ _).0 equal in
                ap (at_element key') (rw k at e')
                ∙ st.others key' n
                ∙ ap (at_element key') (sym (rw k at e))
          ];
      before = rw e (st.before);
    }
