-- ===== src/Lib.antt =====
-- C-GULL (cgull/): static security analysis of C. This library models the exact Boolean reasoning
-- about preprocessor conditions, which decides the configurations that a scan has to look at, the
-- affine and range analyses of integers, the state domains and the fixed-point engine of the
-- data-flow analyses, the finding profiles, and the comparison of findings with a baseline.
--
-- Parts, and the files that model them:
--   Preprocessor/Expression.antt and below it: cgull/preprocessor/expressions.py. The union
--     `Expression` with its constructors, `expression_atoms`, the sort key, and `negate`,
--     `conjunction`, `disjunction`, `simplify`. A tuple of operands is the type `Operands`; a text
--     is the list of its code points; a set is a list without repetitions, and every set of the
--     source is sorted before its order can matter.
--     Expression/Json: `expression_to_dict` and `expression_from_dict`, and the checks of the
--     constructors, which are the only way to a condition from data; every error is a ValueError,
--     `none`. Expression/Format: the text form.
--   Preprocessor/Exec.antt: methods that update `self` and may raise, as functions from a state to
--     a result and a state.
--   Preprocessor/Robdd.antt: cgull/preprocessor/robdd.py, the class `BDD` (`Manager`, with the node
--     list, the unique table `interned`, the four caches and the work counter) and its methods
--     `_node`, `negate`, `apply`, `build`. Preprocessor/Robdd/Queries.antt: `to_expression`,
--     `witness` and the public queries.
--   Preprocessor/Robdd/Values.antt says what a node stands for, Invariant.antt what a well-formed
--     manager is; Nodes, Negate, Cofactors, Apply, BuildParts, Build, Reading and Witnesses prove
--     the methods, Canonical and Assignments that roots are canonical, Answers and Exact the
--     queries.
--   Preprocessor/Branches.antt: cgull/preprocessor/configuration_space.py, `_solve`, `_walk_block`
--     and `derive_branch_witnesses` over the tree of directives.py. What the source appends to its
--     list of results is what the functions return. Branches/Processed.antt describes, apart from
--     the code, what a preprocessor does; Readings and Taken prove that the effective conditions
--     agree with it, Solved and Derived that every verdict is right.
--   Preprocessor/Profiles.antt: cgull/preprocessor/profile_reduction.py, the compilation of a
--     branch's condition and `_branch_possible`, which evaluates the flags of a profile (a list of
--     names and values in place of the mapping) over the diagram, with its memo. Agreeing says
--     which assignments agree with the flags; Possible proves the recursion.
--   Cfg/Domains.antt: cgull/cfg/domains.py, the joins of nullness, initialization and allocation
--     states; Joins says what a state allows of a run of the analysed program.
--   Cfg/Syntax.antt: the syntax trees of the package pycparser, as the analyses of cgull/cfg read
--     them. Cfg/Literal.antt: Python's `int` on the text of a C literal.
--   Cfg/Affine.antt: cgull/cfg/affine_relations.py, the class `AffineFacts` with its methods,
--     `join_affine` and `transfer_affine`; a frozen set is a list. Affine/Holds says what facts
--     claim of the variables' values over mathematical integers; Assign, Sound, Query and Transfer
--     prove the operations.
--   Cfg/Ranges.antt: cgull/cfg/integer_ranges.py, the intervals and the ranges of types;
--     Ranges/Literals: literals and constant folding; Ranges/Expressions: `_expr_range`;
--     Ranges/Conditions: `_condition_truth`, `_constraints`, `_apply`, `_merge` and the edge of a
--     branch; Ranges/Transfer: `_transfer`; Ranges/Fits: `proves_expression_fits`. What the source
--     asks of the analysed unit (types of expressions, sizes, conversions) is the record `Context`,
--     a parameter. Ranges/Bounds says which integers an interval holds. Apart from the code,
--     Ranges/Types says what an integer type holds, Operators what C's operators and conversions
--     give over mathematical integers, Meaning which values an expression may have, and Events what
--     an event does to the variables. Folded, Operands, Sound, Compared, Edges and Steps compare
--     the analysis with them. It is assumed there that `_literal` and `_named_limit` read constants
--     and named limits right and that a type's name tells its sign; and, since the analysis leaves
--     wrap-around and most conversions out, that none happens.
--     Ranges/Analysis: the visit of a node by the worklist of `analyze_integer_ranges`, on a graph
--     that is a function of the nodes' numbers; Stable and Visits are about its invariant.
--   Cfg/FixedPoint.antt: cgull/cfg/fixed_point.py, the engine's `run` on a call graph, with the
--     lattice, the transfer function and the equality of facts as parameters; a dictionary of facts
--     is a function of the names. Rounds and Converges are about the rounds on one component,
--     Final about the whole run. The rounds left are the source's own budget.
--   FindingProfiles.antt: cgull/finding_profiles.py, with the registered rules as a parameter;
--     Merged is about the merged skips, Groups about validation and counts.
--   Baseline.antt: cgull/baseline.py, `apply_baseline`. A result's fields that are copied, and the
--     telemetry, are left out. Baseline/Counts.antt counts fingerprints.
--   Prelude and below it: shared tests, lists, dictionaries and Python's integers.
--
-- The queries make one manager each: they collect the atoms of their conditions, sort them, build
-- the conditions bottom-up with `apply` and `negate`, and read the root.
--
-- Fuel. `negate` and `to_expression` recur on nodes with smaller numbers, so a node's number is
-- fuel enough; `apply` lowers the sum of two numbers; `build` lowers the size of the condition,
-- which normalisation does not raise; the walk of `witness` and the recursion of
-- `_branch_possible` lower the node. The theorems about these methods exclude the failure that
-- stands for exhausted fuel. Python's own recursion limit is not modelled.
--
-- Not modelled: that the worklist of integer_ranges.py empties, and how it collects the names that
-- are exposed or unstable; the rest of profile_reduction.py; and the other packages of cgull/, which
-- work on third-party syntax trees, on files or on processes.
pub mod Prelude
pub mod Baseline
pub mod FindingProfiles
pub mod Cfg
pub mod Preprocessor
