-- ===== src/Edge/Aws/Series/Pages.antt =====
-- internal/edge/awsexec/cloudwatch_metrics.go: the pages of an answer are read to the last one.
use skybridge.Prelude.{
  ℕ, suc, ◌≡◌, sym, ap, ◌∙◌, Option, none, some, List, [], ◌∷◌, ◌++◌, append_assoc, append-nil,
  length, Bytes, Result, ok,
}
use skybridge.Edge.Aws.Series.{MetricResult, Page, further, page_loop, get_metric_data_paginated}

module _ {T V : Type 0} where
  -- A request is answered with a page, and the further ones with the pages behind it, each asked for
  -- with the token of the page before; the last page has none.
  unfoldable pub IsChain :
      (ℕ → Option Bytes → Result Bytes (Page T V))
      → ℕ
      → Option Bytes
      → Page T V
      → List (Page T V)
      → Type 0
  IsChain get_metric_data n token p [] =
      (get_metric_data n token ≡ ok p) × (further p.next_token ≡ none)
  IsChain get_metric_data n token p (q ∷ qs) =
      (get_metric_data n token ≡ ok p)
      × (next : Bytes) × (further p.next_token ≡ some next)
      × IsChain get_metric_data (suc n) (some next) q qs

  pub page_results : List (Page T V) → List (MetricResult T V)
  page_results [] = []
  page_results (p ∷ ps) = p.results ++ page_results ps

  module _ (get_metric_data : ℕ → Option Bytes → Result Bytes (Page T V)) where
    page_loop-IsChain :
        (n : ℕ) (token : Option Bytes) (all : List (MetricResult T V)) (p : Page T V)
        (ps : List (Page T V))
        → IsChain get_metric_data n token p ps
        → page_loop get_metric_data (suc (length ps)) n token all
          ≡ some (ok (all ++ page_results (p ∷ ps)))
    unfolding page_loop IsChain page_results
    page_loop-IsChain n token all p [] (answered, last) =
        rw (answered, page_loop, last) (ap (λ x. some (ok (all ++ x))) (sym (append-nil p.results)))
    page_loop-IsChain n token all p (q ∷ qs) (answered, next, more, rest) =
        rw (answered, page_loop, more)
          (page_loop-IsChain (suc n) (some next) (all ++ p.results) q qs rest
            ∙ ap (λ x. some (ok x)) (append_assoc all p.results (page_results (q ∷ qs))))

    -- The results of all pages are gathered in the order of the pages, with as many requests as
    -- there are pages.
    pub get_metric_data_paginated-IsChain :
        (p : Page T V) (ps : List (Page T V))
        → IsChain get_metric_data 0 none p ps
        → get_metric_data_paginated get_metric_data (suc (length ps))
          ≡ some (ok (page_results (p ∷ ps)))
    unfolding get_metric_data_paginated
    get_metric_data_paginated-IsChain p ps h = page_loop-IsChain 0 none [] p ps h
