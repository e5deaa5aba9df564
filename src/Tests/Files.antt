-- ===== src/Tests/Files.antt =====
-- Runs of handler/htdocs.hpp, and instances of its theorems.
use boost_taar.Common.{
  ◌≡◌, ◌⊎◌, refl, true, false, none, some, List, [], ◌∷◌, arith, if◌then◌else◌, Bytes, codes, trim,
  trim_start, trim_end, cut, pieces, split, iequals,
}
use boost_taar.Core.EntityTag.{EntityTag}
use boost_taar.Core.EntityTag.Printed.{tag_text}
use boost_taar.Core.AcceptEncoding.{
  accept_encoding_quality, take_elements, take_element, read_element, read_params, read_param,
  same_coding, norm, parse_qvalue, thousandths_from,
}
use boost_taar.Matcher.Target.{find, joined}
use boost_taar.Handler.Glob.{
  tokens, shift, scan_run, scan_segments, glob_step, glob_loop, all_false, reach_end, last_segment,
  glob_subject, glob_match,
}
use boost_taar.Handler.Glob.Reference.{globs, glob_match-globs}
use boost_taar.Handler.ContentCache.{
  Cache, empty_cache, Variant, Limits, CacheCall, looks_up, stores, cache_run, cache_step, look_up,
  store_content, cacheable, take_out, lru_find, lru_put, shrink, pop_oldest,
}
use boost_taar.Handler.ContentCache.Accounting.{Counts, cache_run-Counts}
use boost_taar.Handler.Conditional.{
  evaluate_preconditions, not_modified, failed, proceed, select_variant, best_from,
  prefers_identity,
}
use boost_taar.Handler.Conditional.Revalidation.{evaluate_preconditions-tag_text}
use boost_taar.Handler.Conditional.Variants.{Best, select_variant-Best}
use boost_taar.Handler.Paths.{
  relative_target, relative, bad_request, not_found, requested_segments, capture, checked,
}
use boost_taar.Handler.Paths.Contained.{Inside, relative_target-Inside}

glob_runs :
    (glob_match (codes "*.js") (codes "assets/app.js") ≡ true)
    × (glob_match (codes "a/*.js") (codes "a/b/c.js") ≡ false)
    × (glob_match (codes "a/**/c.?s") (codes "a/c.js") ≡ true)
    × (glob_match (codes "a/**/c.?s") (codes "a/x/y/c.js") ≡ true)
    × (glob_match (codes "a/**") (codes "a/x/y") ≡ true)
unfolding tokens shift scan_run scan_segments glob_step glob_loop all_false reach_end last_segment
    glob_subject glob_match
glob_runs = (refl, refl, refl, refl, refl)

glob_match-globs_example :
    glob_match (codes "a/**/*.js") (codes "a/b/c.js")
    ≡ globs (tokens (codes "a/**/*.js")) (glob_subject (codes "a/**/*.js") (codes "a/b/c.js"))
glob_match-globs_example = glob_match-globs (codes "a/**/*.js") (codes "a/b/c.js")

abbrev small : Limits
small = record { max_file_size = 4; max_total = 6 }

abbrev asked_for : Bytes → Variant
asked_for path = record { path = path; size = 3; mtime = 1 }

-- The third file pushes out the one that was not used last.
abbrev traffic : List CacheCall
traffic =
    stores (asked_for (codes "a")) (codes "aaa")
    ∷ stores (asked_for (codes "b")) (codes "bbb")
    ∷ looks_up (asked_for (codes "a"))
    ∷ stores (asked_for (codes "c")) (codes "ccc")
    ∷ looks_up (asked_for (codes "b"))
    ∷ []

traffic_runs :
    cache_run small traffic empty_cache
    ≡ some (record {
      content =
          (codes "c", record { data_bytes = codes "ccc"; mtime = 1 })
          ∷ (codes "a", record { data_bytes = codes "aaa"; mtime = 1 })
          ∷ [];
      content_bytes = 6;
      memory_hits = 1;
      memory_loads = 3;
    })
unfolding cache_run cache_step look_up store_content cacheable take_out lru_find lru_put shrink
    pop_oldest
traffic_runs = refl

cache_run-Counts_example : (c : Cache) × (cache_run small traffic empty_cache ≡ some c) × Counts 6 c
cache_run-Counts_example =
    cache_run-Counts small traffic empty_cache (record { counted = refl; within = omega arith })

abbrev weak_tag : EntityTag
weak_tag = record { weak = true; opaque_tag = codes "v1" }

evaluate_preconditions-tag_text_example :
    (evaluate_preconditions
        (λ text. none)
        (record {
          if_match = none;
          if_unmodified_since = none;
          if_none_match = some (tag_text weak_tag);
          if_modified_since = some [];
        })
        (tag_text weak_tag)
        7
      ≡ not_modified)
    × (evaluate_preconditions
          (λ text. none)
          (record {
            if_match = some (tag_text weak_tag);
            if_unmodified_since = some [];
            if_none_match = none;
            if_modified_since = none;
          })
          (tag_text weak_tag)
          7
        ≡ (if weak_tag.weak then failed else proceed))
evaluate_preconditions-tag_text_example =
    evaluate_preconditions-tag_text (λ text. none) weak_tag (some []) 7 (refl, (refl, tt))

variant_runs :
    (select_variant
        (λ e. e)
        false
        (some (codes "gzip;q=0.5, br"))
        []
        (codes "gzip" ∷ codes "br" ∷ [])
      ≡ codes "br")
    × (select_variant
          (λ e. e)
          false
          (some (codes "gzip;q=0, br;q=0"))
          []
          (codes "gzip" ∷ codes "br" ∷ [])
        ≡ [])
unfolding select_variant best_from prefers_identity accept_encoding_quality take_elements
    take_element read_element read_params read_param same_coding norm parse_qvalue thousandths_from
    trim trim_start trim_end cut split pieces iequals
variant_runs = (refl, refl)

select_variant-Best_example :
    (select_variant
        (λ e. e)
        false
        (some (codes "gzip;q=0.5, br"))
        []
        (codes "gzip" ∷ codes "br" ∷ [])
      ≡ [])
    ⊎ ((field : Bytes) × (some (codes "gzip;q=0.5, br") ≡ some field)
        × (false ≡ false)
        × Best
            (λ e. e)
            field
            (codes "gzip" ∷ codes "br" ∷ [])
            (select_variant
              (λ e. e)
              false
              (some (codes "gzip;q=0.5, br"))
              []
              (codes "gzip" ∷ codes "br" ∷ [])))
select_variant-Best_example =
    select_variant-Best (λ e. e) false (some (codes "gzip;q=0.5, br")) []
      (codes "gzip" ∷ codes "br" ∷ [])

asks_nested :
    relative_target false [] [] (codes "a" ∷ [] ∷ codes "b.txt" ∷ []) ≡ relative (codes "a/b.txt")
unfolding relative_target requested_segments capture checked find joined
asks_nested = refl

path_runs :
    (relative_target false [] [] (codes "a" ∷ codes ".." ∷ []) ≡ bad_request)
    × (relative_target false [] [] (codes ".git" ∷ []) ≡ not_found)
    × (relative_target false [] ((codes "p", codes "x//y") ∷ []) [] ≡ relative (codes "x/y"))
unfolding relative_target requested_segments capture checked find joined split
path_runs = (refl, refl, refl)

relative_target-Inside_example : Inside false (codes "a/b.txt")
relative_target-Inside_example =
    relative_target-Inside false [] [] (codes "a" ∷ [] ∷ codes "b.txt" ∷ []) (codes "a/b.txt")
      (refl, (refl, (refl, tt))) asks_nested
