-- ===== src/Classes.antt =====
-- Classes: src/jelatine/class.c, what src/jelatine/loader.c makes of a class when it is loaded, and the
-- checks of src/jelatine/verifier.c: the hierarchy of classes and how it grows (Hierarchy, Linking),
-- assignability (Subtypes), access to fields (Access), fields and their layout (Members, Layout), and
-- the tables of virtual and of interface methods (Dispatch, InterfaceTable), the latter with their search
-- in src/jelatine/interpreter.c.
pub mod Access
pub mod Dispatch
pub mod Hierarchy
pub mod InterfaceTable
pub mod Linking
pub mod Members
pub mod Sample
pub mod Subtypes
pub mod Layout
