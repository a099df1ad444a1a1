-- ===== src/Libs/SkewHeap.antt =====
-- libs/skew_heap.h: the code (Defs), the trees that it works on, and what it does to them.
pub mod Defs
pub mod Tree
pub mod Members
pub mod Order
pub mod Shape
pub mod Link
pub mod Merge
pub mod Heap
pub mod Remove
