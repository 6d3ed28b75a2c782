-- ===== src/Judy/Slots.antt =====
-- A JudyL array as a list of slots, which shows that the interface can be met.
pub mod Search
use target_utils.Base.{
  ℕ, suc, ◌+◌, ◌≡◌, ◌≢◌, refl, List, [], Option, none, some, arith, ◌==◌, if◌then◌else◌, ==_refl,
}
use target_utils.Judy.One.{Rc, jerr, rc_zero, rc_one}
use target_utils.Judy.Many.{JudyL, pjerr, slot, slot_of, HasMemory, value_or, Inserted, Deleted}
use Search.{content, write, count, up, down, content-write, up-IsFirst, down-IsLast}

abbrev pub delete : List (Option ℕ) → ℕ → Option ℕ → List (Option ℕ) × Rc
delete a i none = (a, rc_zero)
delete a i (some v) = (write a i none, rc_one)

pub delete-Deleted :
    (a : List (Option ℕ)) (i : ℕ) (o : Option ℕ)
    → content a i ≡ o
    → Deleted (content a) i (content (delete a i o).0) (delete a i o).1
delete-Deleted a i none h = (h, λ k. refl)
delete-Deleted a i (some v) h = (cc, λ k. content-write a i none k)

abbrev pub slots : JudyL
slots = record {
  Arr = List (Option ℕ);
  empty = [];
  lookup = content;
  jli = λ a i. (write a i (some (value_or (content a i) 0)), slot i (value_or (content a i) 0));
  store = λ a i v. write a i (some v);
  jld = λ a i. delete a i (content a i);
  jlg = λ a i. slot_of i (content a i);
  jlf = λ a i. up i a;
  jln = λ a i. up (suc i) a;
  jlp = λ a i. down i a;
  jlc = λ a lo hi. count 0 lo hi a;
  lookup-empty = λ i. refl;
  jli-Inserted = λ a i. (refl, refl, λ k. content-write a i (some (value_or (content a i) 0)) k);
  lookup-store = λ a i v k _. content-write a i (some v) k;
  jld-Deleted = λ a i. delete-Deleted a i (content a i) refl;
  jlg_lem = λ a i. refl;
  jlf-IsFirst = λ a i. up-IsFirst i a;
  jln-IsFirst = λ a i. up-IsFirst (suc i) a;
  jlp-IsLast = λ a i. down-IsLast i a;
}

delete-ne-jerr : (a : List (Option ℕ)) (i : ℕ) (o : Option ℕ) → (delete a i o).1 ≢ jerr
delete-ne-jerr a i none = λ e. cc
delete-ne-jerr a i (some v) = λ e. cc

pub slots-HasMemory : HasMemory slots
slots-HasMemory = λ a i. ((λ e. cc), delete-ne-jerr a i (content a i))
