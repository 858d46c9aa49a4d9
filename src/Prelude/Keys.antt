-- ===== src/Prelude/Keys.antt =====
-- The key of a set of ids: the ids sorted and joined by commas.
use mathlib.Core.Path.{◌≡◌, ap, sym, subst}
use mathlib.Core.List.{List, Perm}
use mathlib.Core.List.Perm
use restaurant_engine.Prelude.Lists.{All}
use restaurant_engine.Prelude.Text.{Text, text_le, text_le_total, text_le_antisymm, text_le_trans}
use restaurant_engine.Prelude.Sorting.{sort, All-sort, sort-perm, sort-eq_of_perm}
use restaurant_engine.Prelude.Splitting.{join, IsPart, join-injective}

Text-lists-set : IsSet (List Text)
Text-lists-set = hlevel

-- Ids that are not empty and hold no comma are determined by their key, up to their order.
pub sorted_key-perm :
    (a b : List Text)
    → All (IsPart b',') a
    → All (IsPart b',') b
    → join b',' (sort text_le a) ≡ join b',' (sort text_le b)
    → Perm a b
sorted_key-perm a b h k e =
    let same : sort text_le a ≡ sort text_le b =
      join-injective b',' (sort text_le a) (sort text_le b) (All-sort text_le (IsPart b',') a h)
        (All-sort text_le (IsPart b',') b k) e in
    Perm.trans (Perm.symm (sort-perm text_le a))
      (subst (λ l. Perm l b) (sym same) (sort-perm text_le b))

pub sort_of_perm : {a b : List Text} → Perm a b → sort text_le a ≡ sort text_le b
sort_of_perm p =
    sort-eq_of_perm text_le text_le_total text_le_antisymm text_le_trans Text-lists-set p

-- The key forgets the order.
pub sorted_key_of_perm :
    {a b : List Text} → Perm a b → join b',' (sort text_le a) ≡ join b',' (sort text_le b)
sorted_key_of_perm p = ap (join b',') (sort_of_perm p)
