-- ===== src/Api.antt =====
-- The data of the program: the CRDs of manager/apis/app/v1alpha1 and the models of pkg/model. A
-- Go string type is a text, a pointer that may be nil an `Option`, and a status that takes one of
-- a few words a data type.
pub mod Taxonomy
pub mod Module
pub mod Application
pub mod Plotter
pub mod Blueprint
pub mod Rules
